-- ===== src/SerialPort/ReadBytes.antt =====
-- HardwareSerialCompat::readBytes of HardwareSerial.h, in an interleaving with the thread that
-- feeds the port, and with the clock running.
use bit_magic_zi_modem.Base.{
  ℕ, zero, suc, ◌+◌, ◌-◌, ◌*◌, ◌%◌, ◌^◌, ◌≤◌, ◌<◌, ◌≡◌, refl, sym, ap, ◌∙◌, ◌⊎◌, inl, inr, true,
  false, Option, none, some, List, [], ◌∷◌, ◌++◌, arith, ltb, leb, lt→ltb, le→leb, leb→le,
  if◌then◌else◌, length, take, length-append, Bool-cases,
}
use mathlib.Core.List.{append-nil, append_assoc}
use bit_magic_zi_modem.Base.Int.{ℤ}
use bit_magic_zi_modem.SerialPort.{Serial, feed_input, read, pop_front}
use bit_magic_zi_modem.SerialPort.Queue.{push_all-append}

-- What happens up to a poll of the loop: the other thread feeds bytes before the read, and the
-- clock moves on by some milliseconds before it is looked at.
pub record Moment : Type 0 where
  pub fed : List ℕ
  pub passes : ℕ

abbrev pub fed_in : List Moment → List ℕ
fed_in [] = []
fed_in (m ∷ ms) = m.fed ++ fed_in ms

-- The milliseconds that moments take at most, with the sleep of 1 behind each of them.
abbrev pub span : List Moment → ℕ
span [] = 0
span (m ∷ ms) = m.passes + 1 + span ms

-- `w` is the width of unsigned long, 32 on Windows and 64 on Linux.
module _ (w timeout : ℕ) where
  -- `static_cast<unsigned long>(now_ms())`
  abbrev pub ticks : ℕ → ℕ
  ticks t = t % 2 ^ w

  abbrev pub deadline_at : ℕ → ℕ
  deadline_at t = (ticks t + timeout) % 2 ^ w

  ticks_small : (t : ℕ) → t < 2 ^ w → ticks t ≡ t
  ticks_small t h = grind (arith, h)

  deadline_small : (t : ℕ) → t + timeout < 2 ^ w → deadline_at t ≡ t + timeout
  deadline_small t h =
      ap (λ x. (x + timeout) % 2 ^ w) (ticks_small t (omega (arith, h)))
      ∙ ticks_small (t + timeout) h

  not_yet : (base t : ℕ) → leb (base + timeout) (ticks t) ≡ false → t < 2 ^ w → t < base + timeout
  not_yet base t e k = ground (arith, e, ticks_small t k)

  wrapped :
      (t p : ℕ)
      → t + p < 2 ^ w
      → timeout < 2 ^ w
      → 2 ^ w ≤ t + timeout
      → deadline_at t ≤ ticks (t + p)
  wrapped t p k j g =
      let a = ticks_small t (omega (arith, k)) in
      let b = ticks_small (t + p) k in grind (arith, a, b, k, j, g)

later :
    (g buffer' q' buffer input fed came : List ℕ)
    → buffer' ++ q' ≡ buffer ++ (input ++ fed)
    → g ≡ (buffer' ++ q') ++ came
    → g ≡ (buffer ++ input) ++ (fed ++ came)
later g buffer' q' buffer input fed came p h =
    h
    ∙ ap (λ u. u ++ came) (p ∙ sym (append_assoc buffer input fed))
    ∙ append_assoc (buffer ++ input) fed came

queue_cases : (q : List ℕ) → (q ≡ []) ⊎ ((c : ℕ) × (rest : List ℕ) × (q ≡ c ∷ rest))
queue_cases [] = inl refl
queue_cases (c ∷ rest) = inr (c, rest, refl)

module _ {C : Type 0} (w timeout size : ℕ) where
  -- The loop, one moment for each iteration; `none`: it goes on behind the last of them. The
  -- buffer holds `count` bytes; the result is the buffer, the port and the clock.
  unfoldable pub poll_loop :
      List Moment → Serial C → ℕ → ℕ → List ℕ → Option (List ℕ × Serial C × ℕ)
  poll_loop [] s t deadline buffer = if ltb (length buffer) size then none else some (buffer, s, t)
  poll_loop (m ∷ ms) s t deadline buffer =
      let r = read (feed_input s m.fed) in
      let now : ℕ = t + m.passes in
      elim (ltb (length buffer) size) [
        | false ↦ some (buffer, s, t)
        | true ↦ elim r.0 [
          | ℤ.pos c ↦ poll_loop ms r.1 now (deadline_at w timeout now) (buffer ++ (c ∷ []))
          | ℤ.negsuc n ↦ elim (leb deadline (ticks w timeout now)) [
            | true ↦ some (buffer, r.1, now)
            | false ↦ poll_loop ms r.1 (now + 1) deadline buffer
          ]
        ]
      ]

  unfoldable pub read_bytes : List Moment → Serial C → ℕ → Option (List ℕ × Serial C × ℕ)
  unfolding poll_loop
  read_bytes ms s t = poll_loop ms s t (deadline_at w timeout t) []

  -- The loop ends; what it put behind the buffer and what it left in the queue is what was in the
  -- queue and what was fed in the first n moments, in order; and it has all the bytes asked for,
  -- or the queue is empty and the timeout has passed since `base`.
  pub record IsRead (ms : List Moment) (s : Serial C) (base : ℕ) (buffer : List ℕ)
      (r : Option (List ℕ × Serial C × ℕ)) : Type 0 where
    pub got : List ℕ
    pub queue : List ℕ
    pub end : ℕ
    pub n : ℕ
    pub returns : r ≡ some (got, record s { input = queue }, end)
    pub in_order : got ++ queue ≡ (buffer ++ s.input) ++ fed_in (take n ms)
    pub full_or_late :
        (length got ≡ size) ⊎ ((length got < size) × (queue ≡ []) × (base + timeout ≤ end))

  read_fed :
      (s : Serial C) (xs q : List ℕ)
      → s.input ++ xs ≡ q
      → read (feed_input s xs) ≡ ((pop_front q).0, record s { input = (pop_front q).1 })
  unfolding feed_input read
  read_fed s xs q p =
      ap (λ u. ((pop_front u).0, record s { input = (pop_front u).1 }))
        (push_all-append s.input xs ∙ p)

  full :
      (ms : List Moment) (s : Serial C) (t base deadline : ℕ) (buffer : List ℕ)
      → length buffer ≡ size
      → IsRead ms s base buffer (poll_loop ms s t deadline buffer)
  unfolding poll_loop
  full ms s t base deadline buffer e = record {
    got = buffer;
    queue = s.input;
    end = t;
    n = 0;
    returns = go ms;
    in_order = sym (append-nil (buffer ++ s.input));
    full_or_late = inl e;
  }
    where
      no : ltb (length buffer) size ≡ false
      no = ground (arith, e)

      go : (ms' : List Moment) → poll_loop ms' s t deadline buffer ≡ some (buffer, s, t)
      go [] = rw no refl
      go (m ∷ ms') = rw (no, poll_loop) refl

  after :
      (x : Moment) (ms : List Moment) (s : Serial C) (base base' : ℕ) (buffer buffer' q : List ℕ)
      (r : Option (List ℕ × Serial C × ℕ))
      → base ≤ base'
      → buffer' ++ q ≡ buffer ++ (s.input ++ x.fed)
      → IsRead ms (record s { input = q }) base' buffer' r
      → IsRead (x ∷ ms) s base buffer r
  after x ms s base base' buffer buffer' q r b p h = record {
    got = h.got;
    queue = h.queue;
    end = h.end;
    n = suc h.n;
    returns = h.returns;
    in_order =
        later (h.got ++ h.queue) buffer' q buffer s.input x.fed (fed_in (take h.n ms)) p h.in_order;
    full_or_late = elim h.full_or_late [
      | inl e ↦ inl e
      | inr (l, e, k) ↦ inr (l, e, omega (arith, b, k))
    ];
  }

  -- While the clock, and the deadline with it, do not wrap, and there are moments enough for the
  -- bytes that are wanted and for the timeout, the loop ends as IsRead says.
  poll_loop-IsRead :
      (ms : List Moment) (left : ℕ) (s : Serial C) (t base : ℕ) (buffer : List ℕ)
      → length buffer + left ≡ size
      → base ≤ t
      → t + span ms + timeout < 2 ^ w
      → left * suc timeout + (base + timeout - t) ≤ length ms
      → IsRead ms s base buffer (poll_loop ms s t (base + timeout) buffer)
  unfolding poll_loop
  poll_loop-IsRead ms zero s t base buffer e b k m =
      full ms s t base (base + timeout) buffer (omega (arith, e))
  poll_loop-IsRead [] (suc left) s t base buffer e b k m = absurd (omega (arith, m))
  poll_loop-IsRead (x ∷ ms) (suc left) s t base buffer e b k m =
      let now : ℕ = t + x.passes in
      let small = deadline_small w timeout now (omega (arith, k)) in
      rw (lt→ltb (length buffer) size (omega (arith, e)), poll_loop)
        (elim (queue_cases (s.input ++ x.fed)) [
          | inl p ↦
              rw (read_fed s x.fed [] p)
                (elim (Bool-cases (leb (base + timeout) (ticks w timeout now))) [
                  | inl late ↦ rw late (
                      rw (read_fed s x.fed [] p) (record {
                        got = buffer;
                        queue = [];
                        end = now;
                        n = 1;
                        returns = refl;
                        in_order =
                            later (buffer ++ []) buffer [] buffer s.input x.fed []
                              (ap (λ u. buffer ++ u) (sym p)) (sym (append-nil (buffer ++ [])));
                        full_or_late = inr (
                          omega (arith, e),
                          refl,
                          omega (
                            arith,
                            leb→le (base + timeout) (ticks w timeout now) late,
                            ticks_small w timeout now (omega (arith, k)),
                          ),
                        );
                      }))
                  | inr early ↦ rw early (
                      rw (read_fed s x.fed [] p) (
                        after x ms s base base buffer buffer [] _ (omega arith)
                          (ap (λ u. buffer ++ u) (sym p))
                          (poll_loop-IsRead ms (suc left) (record s { input = [] }) (now + 1) base
                            buffer e (omega (arith, b)) (omega (arith, k))
                            (omega
                              (arith, m, not_yet w timeout base now early (omega (arith, k)))))))
                ])
          | inr (c, rest, p) ↦
              rw (read_fed s x.fed (c ∷ rest) p, small)
                (rw (read_fed s x.fed (c ∷ rest) p) (
                  after x ms s base now buffer (buffer ++ (c ∷ [])) rest _ (omega (arith, b))
                    (append_assoc buffer (c ∷ []) rest ∙ ap (λ u. buffer ++ u) (sym p))
                    (poll_loop-IsRead ms left (record s { input = rest }) now now
                      (buffer ++ (c ∷ [])) (omega (arith, e, length-append buffer (c ∷ [])))
                      (omega arith) (omega (arith, k)) (omega (arith, m)))))
        ])

  -- While the clock does not reach 2 ^ w with the timeout still to come, and the moments are one
  -- for each millisecond of the timeout and as many again for each byte: readBytes ends, nothing
  -- is lost, repeated or reordered, and where it has fewer bytes than asked for, the queue is
  -- empty and the timeout has passed since the call.
  pub read_bytes-IsRead :
      (ms : List Moment) (s : Serial C) (t : ℕ)
      → t + span ms + timeout < 2 ^ w
      → size * suc timeout + timeout ≤ length ms
      → IsRead ms s t [] (read_bytes ms s t)
  unfolding read_bytes
  read_bytes-IsRead ms s t k m =
      rw (deadline_small w timeout t (omega (arith, k)))
        (poll_loop-IsRead ms size s t t [] (omega arith) (omega arith) k (omega (arith, m)))

  -- Where the deadline wraps and the clock has not, readBytes gives up at the first poll that
  -- finds nothing, with no bytes and without waiting, whatever the timeout.
  pub read_bytes_wraps :
      (m : Moment) (ms : List Moment) (s : Serial C) (t : ℕ)
      → 0 < size
      → t + m.passes < 2 ^ w
      → timeout < 2 ^ w
      → 2 ^ w ≤ t + timeout
      → s.input ++ m.fed ≡ []
      → read_bytes (m ∷ ms) s t ≡ some ([], record s { input = [] }, t + m.passes)
  unfolding read_bytes poll_loop
  read_bytes_wraps m ms s t z k j g p =
      let late =
        le→leb (deadline_at w timeout t) (ticks w timeout (t + m.passes))
          (wrapped w timeout t m.passes k j g) in
      rw (lt→ltb 0 size z, poll_loop, read_fed s m.fed [] p) (rw (late, read_fed s m.fed [] p) refl)
