-- ===== src/Managed/Tests.antt =====
-- An application that constructs an object, starts it and disposes of it.
use bit_magic_zi_modem.Base.{none, ◌≡◌, refl, true, false, not, some, List, [], ◌∷◌, ◌++◌}
use bit_magic_zi_modem.Base.Int.{pos, ◌==ℤ◌}
use bit_magic_zi_modem.SerialPort.Queue.{Traffic}
use bit_magic_zi_modem.Pins as Gpio
use bit_magic_zi_modem.Pins.{find}
use bit_magic_zi_modem.Host.Process.{Instance, new_instance, prints, reads, writes_pin, serial_out}
use bit_magic_zi_modem.Host.Abi.{register, put, install}
use bit_magic_zi_modem.Host.Worker.{returns}
use bit_magic_zi_modem.Host.Wake.{queued}
use bit_magic_zi_modem.Host.Lifetime.{Fine, register-IsValid}
use bit_magic_zi_modem.Host.Calls.{fresh}
use bit_magic_zi_modem.Managed.{
  Device, set_object, construct, dispose, Event, signal_changed, Managed, Answer, Use, constructs,
  starts, writes, disposes, thread_moves, acts, use_once, delegates, react, received,
}
use bit_magic_zi_modem.Managed.Draining.{data_of, react-serial_out}
use bit_magic_zi_modem.Managed.Held.{IsHeld}
use bit_magic_zi_modem.Managed.Again.{HasNew, dispose-construct}
use bit_magic_zi_modem.Host.Histories.{fresh-IsValid}
use bit_magic_zi_modem.Managed.Laws.{new-IsHeld, no_objects-IsHeld, uses, no_objects, uses_lem}
use bit_magic_zi_modem.Managed.Lines.{pin_active, pin_inactive, writes_pin-SignalChanged}

-- The object is used again behind its Dispose, and another one takes its place.
abbrev session : List Use
session =
    constructs (100 ∷ []) true (some 7)
    ∷ starts 0
    ∷ writes 0 (65 ∷ 84 ∷ [])
    ∷ thread_moves returns
    ∷ acts reads
    ∷ acts (prints (79 ∷ 75 ∷ []))
    ∷ disposes 0 (returns ∷ returns ∷ [])
    ∷ writes 0 (66 ∷ [])
    ∷ disposes 0 []
    ∷ constructs (100 ∷ []) true (some 8)
    ∷ []

uses_lem_example :
    Fine {A = Traffic × List Event × Managed}
      (λ r.
        IsHeld r.2
        × (r.0.got ++ r.2.process.serial.input ≡ r.0.fed)
        × (data_of r.1 ++ r.2.process.serial.rx_queue ≡ r.0.written))
      (uses no_objects session)
uses_lem_example = uses_lem session

react-serial_out_example :
    react (serial_out 7 0) (queued fresh (79 ∷ 75 ∷ []))
    ≡ (received (79 ∷ 75 ∷ []), queued fresh [])
react-serial_out_example = react-serial_out (queued fresh (79 ∷ 75 ∷ [])) 7 0

abbrev listening_instance : Instance
listening_instance = install (delegates 7) new_instance

abbrev listening : Managed
listening = record no_objects { process = put (register fresh 7) 7 listening_instance }

writes_pin-SignalChanged_example :
    Fine {A = Answer}
      (λ a.
        (a.events ≡ signal_changed (pos 10) (not (pos 0 ==ℤ pin_active)) ∷ [])
        × ((pos 0 ≡ pin_active) → a.events ≡ signal_changed (pos 10) false ∷ [])
        × ((pos 0 ≡ pin_inactive) → a.events ≡ signal_changed (pos 10) true ∷ []))
      (use_once listening (acts (writes_pin (pos 10) (pos 0))))
unfolding Gpio.set_signal_callback find
writes_pin-SignalChanged_example =
    writes_pin-SignalChanged listening 7 7 listening_instance (pos 10) (pos 0) refl refl refl refl
      refl

abbrev device : Device
device = record { native = 7; started = false; disposed = false }

abbrev one_object : Managed
one_object = record {
  process = register fresh 7;
  objects = set_object no_objects 0 device;
  next = 1;
}

one_object-IsHeld : IsHeld one_object
one_object-IsHeld =
    new-IsHeld no_objects 7 (register fresh 7) no_objects-IsHeld refl
      (register-IsValid fresh 7 fresh-IsValid refl, refl)

dispose-construct_example :
    Fine
      (λ x.
        (x.thrown ≡ none)
        × Fine (HasNew x.managed 8) (construct x.managed (100 ∷ []) true (some 8)))
      (dispose one_object 0 (returns ∷ returns ∷ []))
dispose-construct_example =
    dispose-construct one_object 0 device returns returns [] 100 [] 8 one_object-IsHeld refl refl
