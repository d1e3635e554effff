-- ===== src/Net/Tcp/Stream.antt =====
-- The bytes that a client of TcpSocket sees, against the stream that the connection delivers.
use bit_magic_zi_modem.Base.{
  ℕ, ◌+◌, ◌-◌, ◌^◌, ◌≤◌, ◌<◌, ◌≡◌, refl, sym, ap, ◌∙◌, ◌≢◌, true, false, Option, none, some, List,
  [], ◌∷◌, ◌++◌, arith, ltb, lt→ltb, ◌==◌, if◌then◌else◌, length, inl, inr, Bool-cases, All,
}
use mathlib.Core.List.{append_assoc}
use bit_magic_zi_modem.Base.Int.{ℤ, pos, minus_one, to_int, to_int_small, ◌==ℤ◌}
use bit_magic_zi_modem.Net.Os.{Os, StreamLaws, Received, bytes, orderly_close, would_block, failed}
use bit_magic_zi_modem.Net.Tcp.{
  TcpSocket, unconnected, adopt, Read, read_result, read_more, read_at, read, peek_done, peek_byte,
}

-- A closed socket has no pushed-back byte.
pub data IsSound : TcpSocket → Type 0 where
  closed : IsSound unconnected
  at : (h : ℕ) (p : Option ℕ) → IsSound (record { handle = some h; peeked = p })

abbrev pub pushed : Option ℕ → List ℕ
pushed none = []
pushed (some b) = b ∷ []

-- The bytes that a read hands to its caller: none where it answers -1.
abbrev pub delivered : Read → List ℕ
delivered r = if r.code ==ℤ minus_one then [] else r.buffer

delivered-count :
    (bs : List ℕ) (n : ℕ) → n < 2 ^ 31 → delivered (record { code = to_int n; buffer = bs }) ≡ bs
delivered-count bs n h = rw (to_int_small n h)

delivered-close :
    (written : List ℕ)
    → length written < 2 ^ 31
    → delivered (read_result written orderly_close) ≡ written
delivered-close [] h = refl
delivered-close (x ∷ xs) h =
    let p : ltb 0 (length (x ∷ xs)) ≡ true = lt→ltb 0 (length (x ∷ xs)) (omega arith) in
    rw p (delivered-count (x ∷ xs) (length (x ∷ xs)) h)

module _ (os : Os) (laws : StreamLaws os) where
  open laws use {to_come, recv_some, recv_closed, recv_would_block, recv_failed}

  abbrev pub coming : Option ℕ → os.World → List ℕ
  coming none w = []
  coming (some h) w = to_come w h

  -- The bytes that the socket's client is still to read.
  abbrev pub stream : TcpSocket → os.World → List ℕ
  stream s w = pushed s.peeked ++ coming s.handle w

  abbrev pub Keeps : List ℕ → Read × TcpSocket × os.World → Type 0
  Keeps before (r, s, w) = delivered r ++ stream s w ≡ before

  read_more-Keeps :
      (h : ℕ) (written : List ℕ) (n : ℕ) (w : os.World)
      → length written ≤ 1
      → n < 2 ^ 30
      → ((os.recv w h n).0 ≡ failed → written ≡ [])
      → Keeps (written ++ to_come w h) (read_more os h written n (os.recv w h n))
  read_more-Keeps h written n w hw hn f = go (os.recv w h n).0 refl
    where
      go :
          (r : Received)
          → (os.recv w h n).0 ≡ r
          → Keeps
              (written ++ to_come w h)
              (read_result written r, adopt (some h), (os.recv w h n).1)
      go (bytes bs) e =
          let law = recv_some w h n bs e in
          rw (delivered-count (written ++ bs) (length written + length bs) (omega (arith, law.1)))
            (append_assoc written bs _ ∙ ap (λ v. written ++ v) (sym law.2))
      go orderly_close e =
          rw (delivered-close written (omega arith)) (ap (λ v. written ++ v) (recv_closed w h n e))
      go would_block e =
          rw (delivered-count written (length written) (omega arith))
            (ap (λ v. written ++ v) (recv_would_block w h n e))
      go failed e = recv_failed w h n e ∙ ap (λ v. v ++ to_come w h) (sym (f e))

  -- A read hands out the next bytes of the stream and leaves the rest, unless it meets an error
  -- of the connection while a byte is pushed back.
  pub read-Keeps :
      (s : TcpSocket) (w : os.World) (n : ℕ)
      → IsSound s
      → n < 2 ^ 30
      → ((h k : ℕ) → (os.recv w h k).0 ≡ failed → s.peeked ≡ none)
      → Keeps (stream s w) (read os s w n)
  unfolding read
  read-Keeps s w n closed hn f = refl
  read-Keeps s w n (at h p) hn f = elim (Bool-cases (n == 0)) [
    | inl e ↦ rw e refl
    | inr e ↦ rw e (open_read p n e hn f)
  ]
    where
      open_read :
          (p : Option ℕ) (n : ℕ)
          → (n == 0) ≡ false
          → n < 2 ^ 30
          → ((h k : ℕ) → (os.recv w h k).0 ≡ failed → p ≡ none)
          → Keeps (pushed p ++ to_come w h) (read_at os h p w n)
      open_read none n e hn f = read_more-Keeps h [] n w (omega arith) hn (λ _. refl)
      open_read (some b) n e hn f = elim (Bool-cases (n == 1)) [
        | inl g ↦ rw g refl
        | inr g ↦ rw g (
            read_more-Keeps h (b ∷ []) (n - 1) w (omega arith) (omega arith)
              (λ r. absurd (none_some (f h (n - 1) r))))
      ]
        where
          none_some : some b ≡ none → ⊥
          none_some q = cc

  -- What peek_byte answers, at a stream that is `before`.
  pub data Peeked (before : List ℕ) : ℤ × TcpSocket × os.World → Type 0 where
    nothing_yet :
        (s : TcpSocket) (w : os.World)
        → IsSound s
        → stream s w ≡ before
        → Peeked before (minus_one, s, w)
    next :
        (b : ℕ) (s : TcpSocket) (w : os.World) (rest : List ℕ)
        → IsSound s
        → s.peeked ≡ some b
        → stream s w ≡ before
        → before ≡ b ∷ rest
        → Peeked before (pos b, s, w)

  one_byte : (bs : List ℕ) → 0 < length bs → length bs ≤ 1 → (b : ℕ) × (bs ≡ b ∷ [])
  one_byte [] h k = absurd (omega arith)
  one_byte (b ∷ []) h k = (b, refl)
  one_byte (b ∷ c ∷ bs) h k = absurd (omega arith)

  -- peek_byte takes nothing out of the stream: it answers the next byte, which it keeps for the
  -- next read, or -1.
  pub peek_byte-Peeked :
      (s : TcpSocket) (w : os.World) → IsSound s → Peeked (stream s w) (peek_byte os s w)
  unfolding peek_byte
  peek_byte-Peeked s w closed = nothing_yet unconnected w closed refl
  peek_byte-Peeked s w (at h (some b)) = next b _ w _ (at h (some b)) refl refl refl
  peek_byte-Peeked s w (at h none) = go (os.recv w h 1).0 refl
    where
      go :
          (r : Received)
          → (os.recv w h 1).0 ≡ r
          → Peeked
              (to_come w h)
              (peek_done os (read_result [] r, adopt (some h), (os.recv w h 1).1))
      go (bytes bs) e =
          let law = recv_some w h 1 bs e in
          let one = one_byte bs law.0 law.1 in
          rw one.1 (
            next one.0 _ (os.recv w h 1).1 (to_come (os.recv w h 1).1 h) (at h (some one.0)) refl
              (sym (law.2 ∙ ap (λ v. v ++ to_come (os.recv w h 1).1 h) one.1))
              (law.2 ∙ ap (λ v. v ++ to_come (os.recv w h 1).1 h) one.1))
      go orderly_close e = nothing_yet _ _ (at h none) (recv_closed w h 1 e)
      go would_block e = nothing_yet _ _ (at h none) (recv_would_block w h 1 e)
      go failed e = nothing_yet _ _ (at h none) (recv_failed w h 1 e)

  -- The defect: where recv reports an error of the connection while a byte is pushed back, read
  -- answers -1, and the byte, which had arrived, is gone from the stream.
  pub read_drops_pushed :
      (h b n : ℕ) (w : os.World)
      → 2 ≤ n
      → (os.recv w h (n - 1)).0 ≡ failed
      → let (r, s, w') = read os (record { handle = some h; peeked = some b }) w n in
        (r.code ≡ minus_one)
        × (s.peeked ≡ none)
        × (stream (record { handle = some h; peeked = some b }) w ≡ b ∷ stream s w')
  unfolding read
  read_drops_pushed h b n w hn e =
      let z : (n == 0) ≡ false = ground arith in
      let o : (n == 1) ≡ false = ground arith in
      rw (z, o, e) (refl, refl, ap (◌∷◌ b) (sym (recv_failed w h (n - 1) e)))

-- What a client does with a socket between connect and close.
pub data Use : Type 0 where
  peeks : Use
  reads : ℕ → Use

-- A count that the `int` of read holds.
abbrev pub IsSmall : Use → Type 0
IsSmall peeks = Unit
IsSmall (reads n) = n < 2 ^ 30

module _ (os : Os) where
  -- The bytes that the reads hand out, and the socket and world behind the last use.
  unfoldable pub use_all : TcpSocket → os.World → List Use → List ℕ × TcpSocket × os.World
  use_all s w [] = ([], s, w)
  use_all s w (peeks ∷ us) = let r = peek_byte os s w in use_all r.1 r.2 us
  use_all s w (reads n ∷ us) =
      let r = read os s w n in
      let rest = use_all r.1 r.2 us in (delivered r.0 ++ rest.0, rest.1, rest.2)

module _ (os : Os) (laws : StreamLaws os) where
  open laws use {to_come}

  read-IsSound : (s : TcpSocket) (w : os.World) (n : ℕ) → IsSound s → IsSound (read os s w n).1
  unfolding read
  read-IsSound s w n closed = closed
  read-IsSound s w n (at h none) = elim (Bool-cases (n == 0)) [
    | inl e ↦ rw e (at h none)
    | inr e ↦ rw e (at h none)
  ]
  read-IsSound s w n (at h (some b)) = elim (Bool-cases (n == 0)) [
    | inl e ↦ rw e (at h (some b))
    | inr e ↦ elim (Bool-cases (n == 1)) [
      | inl g ↦ rw (e, g) (at h none)
      | inr g ↦ rw (e, g) (at h none)
    ]
  ]

  Peeked-IsSound :
      (before : List ℕ) {r : ℤ × TcpSocket × os.World}
      → Peeked os laws before r
      → IsSound r.1 × (stream os laws r.1 r.2 ≡ before)
  Peeked-IsSound before (nothing_yet s w v e) = (v, e)
  Peeked-IsSound before (next b s w rest v p e q) = (v, e)

  -- On a connection that is not reset, any sequence of peeks and reads hands out the bytes of the
  -- stream from its front, each once and in order, and the socket stands for the rest.
  pub use_all-stream :
      (us : List Use) (s : TcpSocket) (w : os.World)
      → IsSound s
      → All IsSmall us
      → ((v : os.World) (h k : ℕ) → (os.recv v h k).0 ≢ failed)
      → let (bs, s', w') = use_all os s w us in bs ++ stream os laws s' w' ≡ stream os laws s w
  unfolding use_all
  use_all-stream [] s w v small calm = refl
  use_all-stream (peeks ∷ us) s w v small calm =
      let r = Peeked-IsSound _ (peek_byte-Peeked os laws s w v) in
      use_all-stream us (peek_byte os s w).1 (peek_byte os s w).2 r.0 small.1 calm ∙ r.1
  use_all-stream (reads n ∷ us) s w v small calm =
      let k = read-Keeps os laws s w n v small.0 (λ h k f. absurd (calm w h k f)) in
      append_assoc (delivered (read os s w n).0) _ _
      ∙ ap (λ x. delivered (read os s w n).0 ++ x)
          (use_all-stream us (read os s w n).1 (read os s w n).2 (read-IsSound s w n v) small.1
            calm)
      ∙ k
