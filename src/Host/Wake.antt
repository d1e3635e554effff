-- ===== src/Host/Wake.antt =====
-- The wake-up of on_serial_out, and the loop with which zimodem_host.h tells the host to answer it.
use bit_magic_zi_modem.Base.{
  ℕ, zero, suc, ◌<◌, ◌≡◌, refl, ap, ◌∙◌, true, false, Option, none, some, List, [], ◌∷◌, ◌++◌,
  arith, length, ltb, lt→ltb, if◌then◌else◌,
}
use bit_magic_zi_modem.Base.Int.{pos, ◌==ℤ◌}
use bit_magic_zi_modem.SerialPort as Port
use bit_magic_zi_modem.SerialPort.Queue.{as_bytes, push_all-append}
use bit_magic_zi_modem.Host.Process.{
  Process, Out, serial_out, Instance, prints, firmware_step, deliver_events, deliver_event,
  on_data_ready,
}
use bit_magic_zi_modem.Host.Abi.{host_rx_available, host_rx_read}
use bit_magic_zi_modem.Host.Lifetime.{Fine, fine}

-- "Call zimodem_host_rx_read() in a loop until zimodem_host_rx_available() says empty": the bytes
-- read, and the process behind the loop; `none`: the fuel ran out.
unfoldable pub host_drain : ℕ → Process → Option ℕ → Option (List ℕ × Process)
host_drain zero p h = none
host_drain (suc fuel) p h =
    let r = host_rx_read p h in
    let rest = host_drain fuel r.1 h in
    if host_rx_available p h ==ℤ pos 0
    then some ([], p)
    else elim rest [ none ↦ none | some (bytes, q) ↦ some (as_bytes r.0 ++ bytes, q) ]

-- The process with these bytes in the queue to the host.
abbrev pub queued : Process → List ℕ → Process
queued p q = record p { serial = record p.serial { rx_queue = q } }

host_drain_lem :
    (fuel : ℕ) (q : List ℕ) (p : Process) (id : ℕ)
    → length q < fuel
    → host_drain fuel (queued p q) (some id) ≡ some (q, queued p [])
unfolding host_drain host_rx_available host_rx_read Port.rx_available Port.rx_read
host_drain_lem zero q p id h = absurd (omega arith)
host_drain_lem (suc fuel) [] p id h = refl
host_drain_lem (suc fuel) (b ∷ q) p id h = rw (host_drain_lem fuel q p id (omega (arith, h)))

-- Where the host has set on_serial_out and no callback of it is running, a print of at least one
-- byte by the firmware goes through and calls it once; the loop that answers the call ends and has
-- every byte that waited, and behind them the printed ones, in order; the process is then as it
-- was, with an empty queue.
pub prints-host_drain :
    (p : Process) (id cb b : ℕ) (bs : List ℕ) (inst : Instance)
    → p.serial.data_ready_callback ≡ some id
    → p.instances id ≡ some inst
    → inst.locked ≡ false
    → inst.on_serial_out ≡ some cb
    → Fine {A = List Out × Process}
        (λ r.
          (r.0 ≡ serial_out cb inst.user_context ∷ [])
          × (host_drain (suc (length r.1.serial.rx_queue)) r.1 (some id)
              ≡ some (p.serial.rx_queue ++ (b ∷ bs), queued p [])))
        (firmware_step p (prints (b ∷ bs)))
unfolding firmware_step Port.write deliver_events deliver_event on_data_ready
prints-host_drain p id cb b bs inst c i l o =
    let z : ltb 0 (length (b ∷ bs)) ≡ true = lt→ltb 0 (length (b ∷ bs)) (omega arith) in
    let q : List ℕ = Port.push_all p.serial.rx_queue (b ∷ bs) in
    let woken : Process = record p { serial = record p.serial { data_ready_callback = some id } } in
    rw (c, z, i, l, o)
      (fine _ (
        refl,
        host_drain_lem (suc (length q)) q woken id (omega arith)
            ∙ ap (λ bytes. some (bytes, queued woken []))
                (push_all-append p.serial.rx_queue (b ∷ bs)),
      ))
