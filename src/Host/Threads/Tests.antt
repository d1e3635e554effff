-- ===== src/Host/Threads/Tests.antt =====
-- A host that creates an instance and starts it, the firmware that prints a byte, and a destroy on
-- another thread.
use bit_magic_zi_modem.Base.{none, ◌≤◌, ℕ, ◌≡◌, ◌≢◌, refl, true, false, some, [], ◌∷◌, arith}
use bit_magic_zi_modem.Base.Int.{pos}
use bit_magic_zi_modem.SerialPort as Port
use bit_magic_zi_modem.Pins.{find}
use bit_magic_zi_modem.Pins as Gpio
use bit_magic_zi_modem.Host.Process.{Instance, new_instance, setting_up, prints}
use bit_magic_zi_modem.Host.Abi.{install, create_made, put, request_stop}
use bit_magic_zi_modem.Host.Threads.{
  readies, entered, calls, resting, holds, joins, faulted, System, hal, move, on_process, creates,
  starts, acts, stops, Reach, here, next,
}
use bit_magic_zi_modem.Host.Threads.Calm.{update_other}
use bit_magic_zi_modem.Host.Threads.Invariant.{start_state, Reach-safe}
use bit_magic_zi_modem.Host.Threads.Progress.{Finishes, done, goes}
use bit_magic_zi_modem.Host.Threads.Bound.{steps, Reach-bound}
use bit_magic_zi_modem.Host.Threads.Endings.{IsEnded, Reach-rests, Reach-ends}
use bit_magic_zi_modem.Host.Threads.Races.{set_pin-destroy}

abbrev created : System
created =
    on_process start_state
      (create_made (record start_state.process { root = 100 ∷ [] }) true (some 7)).1

abbrev started_instance : Instance
started_instance = record new_instance { started = true; running = true; worker = setting_up }

abbrev running_state : System
running_state = on_process created (put created.process 7 started_instance)

abbrev printing : System
printing =
    move running_state 0 (hal running_state.process (prints (65 ∷ []))).0
      (hal running_state.process (prints (65 ∷ []))).1

abbrev stopping_state : System
stopping_state = move printing 1 (joins 7) (request_stop printing.process 7 started_instance)

-- The background thread is about to call on_serial_out, and thread 1 waits in the join.
stopping_path : Reach true start_state stopping_state
unfolding hal Port.write
stopping_path =
    next
      (next
        (next (next here (creates (100 ∷ []) 7 refl))
          (starts 1 7 new_instance (omega arith) refl refl refl (λ q j id e. cc (e))))
        (acts 7 started_instance (prints (65 ∷ [])) refl refl refl))
      (stops 1 7 started_instance (omega arith) refl refl refl (λ q j z.
        update_other running_state.pc 0 (hal running_state.process (prints (65 ∷ []))).0 j
          (λ p. omega (arith, p, z))))

Reach-safe_example :
    ((i : ℕ) → stopping_state.pc i ≢ faulted)
    × ((i j id k : ℕ) → stopping_state.pc i ≡ holds id → stopping_state.pc j ≡ holds k → i ≡ j)
Reach-safe_example = Reach-safe stopping_state stopping_path

Reach-rests_example : (u : System) × Finishes stopping_state u × (u.pc 0 ≡ resting)
Reach-rests_example = Reach-rests stopping_state 0 stopping_path

Reach-ends_example : (u : System) × Finishes stopping_state u × IsEnded u 7
Reach-ends_example = Reach-ends stopping_state 1 7 stopping_path refl

set_pin-destroy_example : (t : System) × Reach false created t × (t.pc 1 ≡ faulted)
unfolding Gpio.set_signal_callback find
set_pin-destroy_example =
    set_pin-destroy created 1 2 7 new_instance (pos 15) (pos 1) (omega arith) (omega arith)
      (λ q. omega (arith, q)) refl refl refl refl refl refl refl refl

-- The host has set its callbacks.
abbrev hearing_instance : Instance
hearing_instance =
    install
      (record {
        serial_out = some 1;
        signal = some 2;
        log = some 3;
        line_config = none;
        context = 0;
      })
      new_instance

abbrev hearing : System
hearing = on_process created (put created.process 7 hearing_instance)

-- The firmware printed, and the background thread is about to call on_serial_out, whose function
-- drives a pin.
abbrev answering : System
answering =
    move hearing 0 (hal hearing.process (prints (65 ∷ []))).0
      (hal hearing.process (prints (65 ∷ []))).1

abbrev background : ℕ
background = 0

abbrev stopping_instance : Instance
stopping_instance = record started_instance { running = false }

-- The background thread makes the call that it owes.
abbrev waking : Finishes stopping_state (entered stopping_state 0 (readies 7) stopping_instance)
unfolding hal Port.write Port.set_data_ready_callback Port.set_line_config_callback request_stop
waking = goes (calls 0 (readies 7) stopping_instance refl refl refl) refl done

Reach-bound_example : steps waking ≤ 5
Reach-bound_example =
    Reach-bound stopping_state (entered stopping_state 0 (readies 7) stopping_instance) 1 7
      stopping_path refl waking
