-- ===== src/Managed/Draining.antt =====
-- What the delegates of the managed wrapper take from the native queue.
use bit_magic_zi_modem.Base.{
  ℕ, zero, suc, ◌<◌, ◌≡◌, refl, sym, ap, ◌∙◌, Option, some, List, [], ◌∷◌, ◌++◌, arith, inl, inr,
  Bool-cases, length,
}
use mathlib.Core.List.{append-nil, append_assoc}
use bit_magic_zi_modem.Base.Int.{ℤ, pos, negsuc, ◌==ℤ◌}
use bit_magic_zi_modem.SerialPort.{rx_available, rx_read}
use bit_magic_zi_modem.SerialPort.Queue.{as_bytes}
use bit_magic_zi_modem.Host.Process.{Process, Out, serial_out, signal_out, log_out, line_config_out}
use bit_magic_zi_modem.Host.Abi.{host_rx_available, host_rx_read}
use bit_magic_zi_modem.Host.Lifetime.{Kept}
use bit_magic_zi_modem.Host.Histories.{host_rx_read-IsValid}
use bit_magic_zi_modem.Host.Bytes.{host_rx_read-IsFifo}
use bit_magic_zi_modem.Host.Wake.{queued}
use bit_magic_zi_modem.Managed.{
  Event, serial_data_received, signal_changed, log_raised, line_config_changed, taken, drain,
  received, react, react_all,
}

-- The bytes of the SerialDataReceived events, in order.
abbrev pub data_of : List Event → List ℕ
data_of [] = []
data_of (serial_data_received bytes ∷ es) = bytes ++ data_of es
data_of (signal_changed pin active ∷ es) = data_of es
data_of (log_raised message ∷ es) = data_of es
data_of (line_config_changed baud data_bits parity stop_bits_x10 ∷ es) = data_of es

pub data_of-append : (es fs : List Event) → data_of (es ++ fs) ≡ data_of es ++ data_of fs
data_of-append [] fs = refl
data_of-append (serial_data_received bytes ∷ es) fs =
    ap (λ x. bytes ++ x) (data_of-append es fs) ∙ sym (append_assoc bytes (data_of es) (data_of fs))
data_of-append (signal_changed pin active ∷ es) fs = data_of-append es fs
data_of-append (log_raised message ∷ es) fs = data_of-append es fs
data_of-append (line_config_changed baud data_bits parity stop_bits_x10 ∷ es) fs =
    data_of-append es fs

-- From `p` to `q` these bytes left the queue to the host, from its front, and nothing else changed
-- that the validity of the process speaks of.
pub record IsTaken (p : Process) (bytes : List ℕ) (q : Process) : Type 0 where
  pub input : q.serial.input ≡ p.serial.input
  pub queue : bytes ++ q.serial.rx_queue ≡ p.serial.rx_queue
  pub kept : (o : Option ℕ) → Kept o p → Kept o q

none-IsTaken : (p : Process) → IsTaken p [] p
none-IsTaken p = record { input = refl; queue = refl; kept = λ o k. k }

IsTaken-trans :
    (p q r : Process) (a b : List ℕ) → IsTaken p a q → IsTaken q b r → IsTaken p (a ++ b) r
IsTaken-trans p q r a b t u = record {
  input = u.input ∙ t.input;
  queue = append_assoc a b r.serial.rx_queue ∙ ap (λ x. a ++ x) u.queue ∙ t.queue;
  kept = λ o k. u.kept o (t.kept o k);
}

read-IsTaken :
    (p : Process) (h : ℕ)
    → IsTaken p (as_bytes (host_rx_read p (some h)).0) (host_rx_read p (some h)).1
read-IsTaken p h =
    let f = host_rx_read-IsFifo p (some h) in
    record {
      input = f.0 ∙ append-nil p.serial.input;
      queue = f.1 ∙ append-nil p.serial.rx_queue;
      kept = λ o k. (host_rx_read-IsValid p (some h) k.0, active ∙ k.1);
    }
  where
    active : (host_rx_read p (some h)).1.active ≡ p.active
    active = unfold host_rx_read in refl

taken-IsTaken :
    (p : Process) (r : ℤ × Process) (rest : List ℕ × Process)
    → IsTaken p (as_bytes r.0) r.1
    → IsTaken r.1 rest.0 rest.1
    → IsTaken p (taken r.0 rest ([], r.1)).0 (taken r.0 rest ([], r.1)).1
taken-IsTaken p (pos b, q) rest t u = IsTaken-trans p q rest.1 (b ∷ []) rest.0 t u
taken-IsTaken p (negsuc n, q) rest t u = t

drain-IsTaken : (fuel : ℕ) (p : Process) (h : ℕ) → IsTaken p (drain fuel p h).0 (drain fuel p h).1
unfolding drain
drain-IsTaken zero p h = none-IsTaken p
drain-IsTaken (suc fuel) p h = elim (Bool-cases (host_rx_available p (some h) ==ℤ pos 0)) [
  | inl e ↦ rw e (none-IsTaken p)
  | inr e ↦ rw e (
      taken-IsTaken p (host_rx_read p (some h)) (drain fuel (host_rx_read p (some h)).1 h)
        (read-IsTaken p h) (drain-IsTaken fuel (host_rx_read p (some h)).1 h))
]

received_lem : (bytes : List ℕ) → data_of (received bytes) ≡ bytes
received_lem [] = refl
received_lem (b ∷ bytes) = append-nil (b ∷ bytes)

react-IsTaken : (o : Out) (p : Process) → IsTaken p (data_of (react o p).0) (react o p).1
unfolding react
react-IsTaken (serial_out h ctx) p =
    rw (received_lem (drain (suc (length p.serial.rx_queue)) p h).0)
      (drain-IsTaken (suc (length p.serial.rx_queue)) p h)
react-IsTaken (signal_out h ctx pin active) p = none-IsTaken p
react-IsTaken (log_out h ctx message) p = none-IsTaken p
react-IsTaken (line_config_out h ctx baud data_bits parity stop_bits_x10) p = none-IsTaken p

pub react_all-IsTaken :
    (os : List Out) (p : Process) → IsTaken p (data_of (react_all os p).0) (react_all os p).1
unfolding react_all
react_all-IsTaken [] p = none-IsTaken p
react_all-IsTaken (o ∷ os) p =
    rw (data_of-append (react o p).0 (react_all os (react o p).1).0)
      (IsTaken-trans p _ _ _ _ (react-IsTaken o p) (react_all-IsTaken os (react o p).1))

-- The loop of OnSerialOutNative empties the queue: one turn more than there are bytes is enough.
drain_lem :
    (fuel : ℕ) (q : List ℕ) (p : Process) (h : ℕ)
    → length q < fuel
    → drain fuel (queued p q) h ≡ (q, queued p [])
unfolding drain host_rx_available host_rx_read rx_available rx_read
drain_lem zero q p h l = absurd (omega (arith, l))
drain_lem (suc fuel) [] p h l = refl
drain_lem (suc fuel) (b ∷ q) p h l = rw (drain_lem fuel q p h (omega (arith, l))) refl

-- The answer to on_serial_out empties the queue, whatever waits there, and raises one event with
-- all of it, or none where nothing waits; the process is then as it was, with an empty queue.
pub react-serial_out :
    (p : Process) (h ctx : ℕ)
    → react (serial_out h ctx) p ≡ (received p.serial.rx_queue, queued p [])
unfolding react
react-serial_out p h ctx =
    ap (λ r. (received r.0, r.1))
      (drain_lem (suc (length p.serial.rx_queue)) p.serial.rx_queue p h (omega arith))
