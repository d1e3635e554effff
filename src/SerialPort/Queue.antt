-- ===== src/SerialPort/Queue.antt =====
-- The two byte queues of serial_port.cpp under any interleaving of calls.
use bit_magic_zi_modem.Base.{
  ℕ, zero, suc, ◌<◌, ◌≡◌, refl, sym, ap, ◌∙◌, true, Option, none, some, List, [], ◌∷◌, ◌++◌, arith,
  ltb, lt→ltb, if◌then◌else◌, length,
}
use mathlib.Core.List.{append-nil, append_assoc, flatten}
use bit_magic_zi_modem.Base.Int.{ℤ, pos, negsuc}
use bit_magic_zi_modem.SerialPort.{
  Serial, Event, push_all, feed_input, read, write, rx_available, rx_read, pop_front, wake,
  set_line_config, set_line_baud,
}

pub push_all-append : (q xs : List ℕ) → push_all q xs ≡ q ++ xs
unfolding push_all
push_all-append q [] = sym (append-nil q)
push_all-append q (x ∷ xs) = push_all-append (q ++ x ∷ []) xs ∙ append_assoc q (x ∷ []) xs

-- The calls that move bytes or change the line settings, from either side of the port.
pub data Call : Type 0 where
  feeds writes : List ℕ → Call
  reads peeks drains : Call
  sets_line : ℕ → ℕ → Call
  sets_baud : ℕ → Call

-- The bytes that crossed each of the four ends of the two queues, oldest first.
pub record Traffic : Type 0 where
  pub fed : List ℕ
  pub got : List ℕ
  pub written : List ℕ
  pub drained : List ℕ

abbrev pub quiet : Traffic
quiet = record { fed = []; got = []; written = []; drained = [] }

-- A byte that a read returned; -1 is none.
abbrev pub as_bytes : ℤ → List ℕ
as_bytes (pos b) = b ∷ []
as_bytes (negsuc n) = []

abbrev pub join : Traffic → Traffic → Traffic
join a b = record {
  fed = a.fed ++ b.fed;
  got = a.got ++ b.got;
  written = a.written ++ b.written;
  drained = a.drained ++ b.drained;
}

pub pop_fifo : (q : List ℕ) → as_bytes (pop_front q).0 ++ (pop_front q).1 ≡ q ++ []
pop_fifo [] = refl
pop_fifo (b ∷ q) = sym (append-nil (b ∷ q))

pub chain :
    (q q' q'' out out' came came' : List ℕ)
    → out ++ q' ≡ q ++ came
    → out' ++ q'' ≡ q' ++ came'
    → (out ++ out') ++ q'' ≡ q ++ (came ++ came')
chain q q' q'' out out' came came' a b =
    append_assoc out out' q''
    ∙ ap (λ w. out ++ w) b
    ∙ sym (append_assoc out q' came')
    ∙ ap (λ w. w ++ came') a
    ∙ append_assoc q came came'

module _ {C : Type 0} where
  unfoldable pub step : Serial C → Call → Traffic × Serial C
  unfolding feed_input read write rx_read set_line_config set_line_baud
  step s (feeds xs) = (record quiet { fed = xs }, feed_input s xs)
  step s (writes xs) = (record quiet { written = xs }, (write s xs).2)
  step s reads = let (c, s') = read s in (record quiet { got = as_bytes c }, s')
  step s peeks = (quiet, s)
  step s drains = let (c, s') = rx_read s in (record quiet { drained = as_bytes c }, s')
  step s (sets_line baud config) = (quiet, (set_line_config s baud config).1)
  step s (sets_baud baud) = (quiet, (set_line_baud s baud).1)

  unfoldable pub run : Serial C → List Call → Traffic × Serial C
  unfolding step
  run s [] = (quiet, s)
  run s (c ∷ cs) = let (t, s') = step s c in let (u, s'') = run s' cs in (join t u, s'')

  -- What went out of each queue, and what is still in it, is what was in it and what came in.
  abbrev pub IsFifo : Serial C → Traffic × Serial C → Type 0
  IsFifo s (t, s') =
      (t.got ++ s'.input ≡ s.input ++ t.fed) × (t.drained ++ s'.rx_queue ≡ s.rx_queue ++ t.written)

  step-IsFifo : (s : Serial C) (c : Call) → IsFifo s (step s c)
  unfolding step
  step-IsFifo s (feeds xs) = (push_all-append s.input xs, sym (append-nil s.rx_queue))
  step-IsFifo s (writes xs) = (sym (append-nil s.input), push_all-append s.rx_queue xs)
  step-IsFifo s reads = (pop_fifo s.input, sym (append-nil s.rx_queue))
  step-IsFifo s peeks = (sym (append-nil s.input), sym (append-nil s.rx_queue))
  step-IsFifo s drains = (sym (append-nil s.input), pop_fifo s.rx_queue)
  step-IsFifo s (sets_line baud config) = ground (arith, append-nil s.input, append-nil s.rx_queue)
  step-IsFifo s (sets_baud baud) = ground (arith, append-nil s.input, append-nil s.rx_queue)

  -- No sequence of calls from the two sides loses, repeats or reorders a byte, in either direction.
  pub run-IsFifo : (s : Serial C) (cs : List Call) → IsFifo s (run s cs)
  unfolding run
  run-IsFifo s [] = (sym (append-nil s.input), sym (append-nil s.rx_queue))
  run-IsFifo s (c ∷ cs) =
      let h = step-IsFifo s c in
      let k = run-IsFifo (step s c).1 cs in
      (
        chain _ (step s c).1.input _ (step s c).0.got _ (step s c).0.fed _ h.0 k.0,
        chain _ (step s c).1.rx_queue _ (step s c).0.drained _ (step s c).0.written _ h.1 k.1,
      )

  -- The consumer's loop: rx_read until rx_available says empty. `none`: the fuel ran out.
  unfoldable pub drain : ℕ → Serial C → Option (List ℕ × Serial C)
  unfolding rx_available rx_read
  drain zero s = none
  drain (suc fuel) s =
      let r = rx_read s in
      let rest = drain fuel r.1 in
      if rx_available s
      then elim rest [ none ↦ none | some (bytes, s') ↦ some (as_bytes r.0 ++ bytes, s') ]
      else some ([], s)

  drain_from :
      (fuel : ℕ) (q : List ℕ) (s : Serial C)
      → length q < fuel
      → drain fuel (record s { rx_queue = q }) ≡ some (q, record s { rx_queue = [] })
  unfolding drain
  drain_from zero q s h = absurd (omega arith)
  drain_from (suc fuel) [] s h = refl
  drain_from (suc fuel) (b ∷ q) s h = rw (drain_from fuel q s (omega arith))

  -- The consumer's loop ends, takes every queued byte in order, leaves the queue empty and changes
  -- nothing else of the port.
  pub drain_lem :
      (s : Serial C)
      → drain (suc (length s.rx_queue)) s ≡ some (s.rx_queue, record s { rx_queue = [] })
  drain_lem s = drain_from (suc (length s.rx_queue)) s.rx_queue s (omega arith)

  -- A consumer that runs the loop whenever the port wakes it.
  unfoldable pub serve : List (Event C) → Serial C → Option (List ℕ × Serial C)
  unfolding drain
  serve [] s = some ([], s)
  serve (e ∷ es) s = drain (suc (length s.rx_queue)) s

  -- The bytes that such a consumer has after a sequence of writes.
  unfoldable pub deliver : Serial C → List (List ℕ) → Option (List ℕ × Serial C)
  deliver s [] = some ([], s)
  deliver s (xs ∷ xss) = elim (serve (write s xs).1 (write s xs).2) [
    | none ↦ none
    | some (bytes, after) ↦ elim (deliver after xss) [
      | none ↦ none
      | some (more, last) ↦ some (bytes ++ more, last)
    ]
  ]

  serve-wake :
      (o : Option C) (cb : C) (xs : List ℕ) (s : Serial C)
      → o ≡ some cb
      → serve (wake o xs) (record s { rx_queue = xs }) ≡ some (xs, record s { rx_queue = [] })
  unfolding serve
  serve-wake none cb xs s c = cc
  serve-wake (some d) cb [] s c = refl
  serve-wake (some d) cb (x ∷ xs) s c =
      let p : ltb 0 (suc (length xs)) ≡ true = lt→ltb 0 (suc (length xs)) (omega arith) in
      rw p (drain_lem (record s { rx_queue = x ∷ xs }))

  serve-write :
      (s : Serial C) (cb : C) (xs : List ℕ)
      → s.data_ready_callback ≡ some cb
      → s.rx_queue ≡ []
      → serve (write s xs).1 (write s xs).2 ≡ some (xs, record s { rx_queue = [] })
  unfolding write
  serve-write s cb xs c e =
      let q : push_all s.rx_queue xs ≡ xs = push_all-append s.rx_queue xs ∙ ap (λ w. w ++ xs) e in
      ap (λ w. serve (wake s.data_ready_callback xs) (record s { rx_queue = w })) q
      ∙ serve-wake s.data_ready_callback cb xs s c

  -- No wake-up is lost: with a callback set, a consumer that empties the queue whenever it is
  -- woken has all bytes of all writes, in order, and the queue is empty behind each write.
  pub deliver_lem :
      (s : Serial C) (cb : C) (xss : List (List ℕ))
      → s.data_ready_callback ≡ some cb
      → s.rx_queue ≡ []
      → deliver s xss ≡ some (flatten xss, s)
  unfolding deliver flatten
  deliver_lem s cb [] c e = refl
  deliver_lem s cb (xs ∷ xss) c e =
      let same : record s { rx_queue = [] } ≡ s = λ i. record s { rx_queue = sym e i } in
      rw (serve-write s cb xs c e, deliver, same, deliver_lem s cb xss c e)
