-- ===== src/Managed/Again.antt =====
-- A managed object behind another one.
use bit_magic_zi_modem.Base.{
  ℕ, ◌+◌, ◌≡◌, refl, sym, ap, subst, true, false, none, some, List, ◌∷◌, ==_iff,
}
use bit_magic_zi_modem.Host.Process.{Process}
use bit_magic_zi_modem.Host.Abi.{handle, register, create, create_at, set_callbacks}
use bit_magic_zi_modem.Host.Worker.{Outcome, destroy}
use bit_magic_zi_modem.Host.Lifetime.{IsValid, Fine, fine, register-IsValid, move-IsValid}
use bit_magic_zi_modem.Host.Exports.{and_then-Fine, set_callbacks-Kept}
use bit_magic_zi_modem.Host.Ending.{destroy-ends}
use bit_magic_zi_modem.Managed.{Device, Managed, Answer, delegates, constructed, construct, dispose}
use bit_magic_zi_modem.Managed.Draining.{react_all-IsTaken}
use bit_magic_zi_modem.Managed.Held.{IsHeld}

-- The constructor came back with this handle.
abbrev pub HasNew : Managed → ℕ → Answer → Type 0
HasNew m id a =
    (a.thrown ≡ none)
    × (a.managed.objects m.next ≡ some (record { native = id; started = false; disposed = false }))
    × (a.managed.process.active ≡ some id)

create-none :
    (p : Process) (c : ℕ) (dir : List ℕ) (id : ℕ)
    → p.active ≡ none
    → create p (some (some (c ∷ dir))) true (some id)
      ≡ (handle id, register (record p { root = c ∷ dir; net_uses = p.net_uses + 1 }) id)
unfolding create
create-none p c dir id e = ap (λ o. create_at p o (c ∷ dir) true (some id)) e

construct-HasNew :
    (m : Managed) (c : ℕ) (dir : List ℕ) (id : ℕ)
    → IsValid m.process
    → m.process.active ≡ none
    → Fine (HasNew m id) (construct m (c ∷ dir) true (some id))
unfolding construct
construct-HasNew m c dir id v e =
    let p = record m.process { root = c ∷ dir; net_uses = m.process.net_uses + 1 } in
    subst (λ r. Fine (HasNew m id) (constructed m r)) (sym (create-none m.process c dir id e))
      (and_then-Fine (set_callbacks (register p id) (some id) (delegates id)) _
        (set_callbacks-Kept (register p id) (some id) (delegates id)
          (register-IsValid p id (move-IsValid m.process (c ∷ dir) (m.process.net_uses + 1) v) e)
          refl)
        (λ q k. fine _ (refl, rw ((==_iff m.next m.next).1 refl) refl, k.1)))

-- A Dispose of the object that holds the active instance comes back without an exception, however
-- its firmware ends, and a constructor behind it, with a directory that is accessible and memory
-- for the instance, makes a new object with a handle of its own.
pub dispose-construct :
    (m : Managed) (k : ℕ) (d : Device) (a b : Outcome) (os : List Outcome) (c : ℕ) (dir : List ℕ)
    (id : ℕ)
    → IsHeld m
    → m.objects k ≡ some d
    → d.disposed ≡ false
    → Fine
        (λ x.
          (x.thrown ≡ none)
          × Fine (HasNew x.managed id) (construct x.managed (c ∷ dir) true (some id)))
        (dispose m k (a ∷ b ∷ os))
unfolding dispose
dispose-construct m k d a b os c dir id h e f =
    let n = h.live k d e f in
    rw (e, f)
      (and_then-Fine (destroy m.process (some d.native) (a ∷ b ∷ os)) _
        (destroy-ends m.process d.native a b os h.valid n)
        (λ r y.
          let t = (react_all-IsTaken r.1 r.2).kept none (y.1, y.2) in
          fine _ (refl, construct-HasNew _ c dir id t.0 t.1)))
