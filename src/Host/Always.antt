-- ===== src/Host/Always.antt =====
-- What holds of the answer of a call, in case it goes through.
use bit_magic_zi_modem.Base.{◌≡◌, ap, subst, Bool, true, false, Option, none, some, if◌then◌else◌}
use bit_magic_zi_modem.Host.Process.{Result, ok, dangling, deadlock, and_then, Instance}
use bit_magic_zi_modem.Host.Abi.{on_instance}
use bit_magic_zi_modem.Host.Lifetime.{Fine, fine}

abbrev from_ok {ℓ} : {A : Type ℓ} → A → Result A → A
from_ok d (ok a) = a
from_ok d dangling = d
from_ok d deadlock = d

pub data Always {ℓ κ} {A : Type ℓ} (P : A → Type κ) : Result A → Type (ℓ ⊔ κ) where
  through : (a : A) → P a → Always P (ok a)
  dangles : Always P dangling
  waits : Always P deadlock

pub and_then-Always {ℓ κ μ ν} :
    {A : Type ℓ} {B : Type κ} {P : A → Type μ} {Q : B → Type ν} (r : Result A) (f : A → Result B)
    → Always P r
    → ((a : A) → P a → Always Q (f a))
    → Always Q (and_then r f)
and_then-Always r f (through a p) q = q a p
and_then-Always r f dangles q = dangles
and_then-Always r f waits q = waits

pub and_then_lem {ℓ κ ν} :
    {A : Type ℓ} {B : Type κ} {Q : B → Type ν} (r : Result A) (f : A → Result B)
    → ((a : A) → Always Q (f a))
    → Always Q (and_then r f)
and_then_lem (ok a) f q = q a
and_then_lem dangling f q = dangles
and_then_lem deadlock f q = waits

pub on_instance-Always {ℓ κ} :
    {A : Type ℓ} {P : A → Type κ} (o : Option Instance) (body : Instance → Result A)
    → ((inst : Instance) → Always P (body inst))
    → Always P (on_instance o body)
on_instance-Always none body h = dangles
on_instance-Always (some inst) body h = h inst

pub choice-Always {ℓ κ} :
    {A : Type ℓ} {P : A → Type κ} (b : Bool) (r s : Result A)
    → Always P r
    → Always P s
    → Always P (if b then r else s)
choice-Always true r s h k = h
choice-Always false r s h k = k

pub map-Always {ℓ κ ν} :
    {A : Type ℓ} {P : A → Type κ} {Q : A → Type ν} (r : Result A)
    → Always P r
    → ((a : A) → P a → Q a)
    → Always Q r
map-Always r (through a p) h = through a (h a p)
map-Always r dangles h = dangles
map-Always r waits h = waits

pub Always-ok {ℓ κ} :
    {A : Type ℓ} {P : A → Type κ} (r : Result A) (a : A) → Always P r → r ≡ ok a → P a
Always-ok {P = P} r a (through b p) e = subst P (ap (from_ok b) e) p
Always-ok r a dangles e = cc
Always-ok r a waits e = cc

pub Fine-Always {ℓ κ ν} :
    {A : Type ℓ} {P : A → Type κ} {Q : A → Type ν} (r : Result A)
    → Fine P r
    → Always Q r
    → Fine (λ a. P a × Q a) r
Fine-Always r (fine a p) (through b q) = fine a (p, q)

pub map-Fine {ℓ κ ν} :
    {A : Type ℓ} {P : A → Type κ} {Q : A → Type ν} (r : Result A)
    → Fine P r
    → ((a : A) → P a → Q a)
    → Fine Q r
map-Fine r (fine a p) h = fine a (h a p)
