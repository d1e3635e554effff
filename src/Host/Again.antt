-- ===== src/Host/Again.antt =====
-- What a second instance of one process finds.
use bit_magic_zi_modem.Base.{ℕ, ◌≡◌, Bool, true, some, none, List, ◌∷◌}
use bit_magic_zi_modem.Host.Process.{Process, Out}
use bit_magic_zi_modem.Host.Abi.{Created, create, handle}
use bit_magic_zi_modem.Host.Worker.{Outcome, destroy}
use bit_magic_zi_modem.Host.Lifetime.{IsValid, Fine}
use bit_magic_zi_modem.Host.Always.{Fine-Always, map-Fine}
use bit_magic_zi_modem.Host.Ending.{destroy-ends}
use bit_magic_zi_modem.Host.Same.{Same, Same-trans, create-Same, destroy-Same}

-- A create that gives this handle, and leaves what Same names as it is in `p`.
abbrev pub Inherits : Process → ℕ → Created × Process → Type 0
Inherits p id r = (r.0 ≡ handle id) × Same p r.1

create-handle :
    (q : Process) (next c : ℕ) (cs : List ℕ)
    → q.active ≡ none
    → (create q (some (some (c ∷ cs))) true (some next)).0 ≡ handle next
unfolding create
create-handle q next c cs e = rw e

-- A destroy of the active instance comes back, however its thread ends, and a create behind it,
-- with a data directory that can be made and memory for the instance, gives a handle: the bytes
-- that nobody has read, the line settings and the values of the pins are then those that the
-- instance before left.
pub create-destroy :
    (p : Process) (id next c : ℕ) (cs : List ℕ) (a b : Outcome) (os : List Outcome)
    → IsValid p
    → p.active ≡ some id
    → Fine {A = Bool × List Out × Process}
        (λ r. Inherits p next (create r.2 (some (some (c ∷ cs))) true (some next)))
        (destroy p (some id) (a ∷ b ∷ os))
create-destroy p id next c cs a b os v e =
    map-Fine (destroy p (some id) (a ∷ b ∷ os))
      (Fine-Always _ (destroy-ends p id a b os v e) (destroy-Same p (some id) (a ∷ b ∷ os)))
      (λ r h. (
        create-handle r.2 next c cs h.0.2,
        Same-trans h.1 (create-Same r.2 (some (some (c ∷ cs))) true (some next)),
      ))
