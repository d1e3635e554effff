-- ===== src/Host/Threads/Crossing.antt =====
-- Threads that take and leave callback_mutex, and that join, against the other threads.
use bit_magic_zi_modem.Base.{
  ℕ, zero, suc, ◌≡◌, ◌≢◌, ◌<◌, refl, sym, ap, ◌∙◌, ◌⊎◌, inl, inr, Bool, true, false, Option, some,
  ◌==◌, ==_iff, arith, Bool-cases,
}
use bit_magic_zi_modem.Host.Threads.{Pc, resting, owes, holds, waits, joins, faulted, update}
use bit_magic_zi_modem.Host.Threads.Calm.{
  IsCalm, update_self, update_other, update_cases, update_rest,
}

module _ (a : Option ℕ) (l : Bool) (pc : ℕ → Pc) (c : IsCalm a l pc) (i : ℕ) where
  -- A thread takes the mutex.
  pub enter-IsCalm :
      (id : ℕ)
      → l ≡ false
      → a ≡ some id
      → ((k m : ℕ) → pc k ≡ joins m → i ≡ 0)
      → IsCalm a true (update pc i (holds id))
  enter-IsCalm id free e h = record {
    owed = λ j d p. elim (update_cases pc i (holds id) j (owes d) p) [
      | inl (o, q) ↦ cc (q)
      | inr (n, q) ↦ c.owed j d q
    ];
    held = λ j m p. elim (update_cases pc i (holds id) j (holds m) p) [
      | inl (o, q) ↦ (e ∙ cc (q), refl)
      | inr (n, q) ↦ absurd (nobody j m q)
    ];
    one = λ j k m o p q. elim (update_cases pc i (holds id) j (holds m) p) [
      | inl (x, u) ↦ elim (update_cases pc i (holds id) k (holds o) q) [
        | inl (y, v) ↦ x ∙ sym y
        | inr (n, v) ↦ absurd (nobody k o v)
      ]
      | inr (n, u) ↦ absurd (nobody j m u)
    ];
    holder = λ p. (i, id, update_self pc i (holds id));
    joining = λ j m p. elim (update_cases pc i (holds id) j (joins m) p) [
      | inl (o, q) ↦ cc (q)
      | inr (n, q) ↦ c.joining j m q
    ];
    alone = λ k m j p z. elim (update_cases pc i (holds id) k (joins m) p) [
      | inl (o, q) ↦ cc (q)
      | inr (n, q) ↦ elim (c.alone k m j q z) [
        | inl o ↦ inl o
        | inr r ↦ inr (update_other pc i (holds id) j (λ o. omega (arith, h k m q, o, z)) ∙ r)
      ]
    ];
    sound = λ j p. elim (update_cases pc i (holds id) j faulted p) [
      | inl (o, q) ↦ cc (q)
      | inr (n, q) ↦ c.sound j q
    ];
    unstuck = λ j m p. elim (update_cases pc i (holds id) j (waits m) p) [
      | inl (o, q) ↦ cc (q)
      | inr (n, q) ↦ c.unstuck j m q
    ];
  }
    where
      nobody : (j m : ℕ) → pc j ≢ holds m
      nobody j m q = cc (free, (c.held j m q).1)

  -- The thread in the callback leaves it.
  pub leave-IsCalm : (id : ℕ) → pc i ≡ holds id → IsCalm a false (update pc i resting)
  leave-IsCalm id e = record {
    owed = λ j d p. elim (update_cases pc i resting j (owes d) p) [
      | inl (o, q) ↦ cc (q)
      | inr (n, q) ↦ c.owed j d q
    ];
    held = λ j m p. elim (update_cases pc i resting j (holds m) p) [
      | inl (o, q) ↦ cc (q)
      | inr (n, q) ↦ absurd (n (c.one j i m id q e))
    ];
    one = λ j k m o p q. elim (update_cases pc i resting j (holds m) p) [
      | inl (x, u) ↦ cc (u)
      | inr (n, u) ↦ absurd (n (c.one j i m id u e))
    ];
    holder = λ p. cc (p);
    joining = λ j m p. elim (update_cases pc i resting j (joins m) p) [
      | inl (o, q) ↦ cc (q)
      | inr (n, q) ↦ c.joining j m q
    ];
    alone = λ k m j p z. elim (update_cases pc i resting k (joins m) p) [
      | inl (o, q) ↦ cc (q)
      | inr (n, q) ↦ elim (c.alone k m j q z) [
        | inl o ↦ inl o
        | inr r ↦ inr (update_rest pc i resting j (λ p. refl) r)
      ]
    ];
    sound = λ j p. elim (update_cases pc i resting j faulted p) [
      | inl (o, q) ↦ cc (q)
      | inr (n, q) ↦ c.sound j q
    ];
    unstuck = λ j m p. elim (update_cases pc i resting j (waits m) p) [
      | inl (o, q) ↦ cc (q)
      | inr (n, q) ↦ c.unstuck j m q
    ];
  }

  -- A thread of the host begins to join, with all others of the host at rest.
  pub join-IsCalm :
      (id : ℕ)
      → 0 < i
      → a ≡ some id
      → ((j : ℕ) → 0 < j → pc j ≡ resting)
      → IsCalm a l (update pc i (joins id))
  join-IsCalm id z e h = record {
    owed = λ j d p. elim (update_cases pc i (joins id) j (owes d) p) [
      | inl (o, q) ↦ cc (q)
      | inr (n, q) ↦ c.owed j d q
    ];
    held = λ j m p. elim (update_cases pc i (joins id) j (holds m) p) [
      | inl (o, q) ↦ cc (q)
      | inr (n, q) ↦ c.held j m q
    ];
    one = λ j k m o p q. elim (update_cases pc i (joins id) j (holds m) p) [
      | inl (x, u) ↦ cc (u)
      | inr (n, u) ↦ elim (update_cases pc i (joins id) k (holds o) q) [
        | inl (x, v) ↦ cc (v)
        | inr (x, v) ↦ c.one j k m o u v
      ]
    ];
    holder = λ p.
        let t = c.holder p in
        (
          t.0,
          t.1,
          update_other pc i (joins id) t.0 (λ o. not_holding t.1 (ap pc (sym o) ∙ t.2)) ∙ t.2,
        );
    joining = λ j m p. elim (update_cases pc i (joins id) j (joins m) p) [
      | inl (o, q) ↦ (e ∙ cc (q), omega (arith, o, z))
      | inr (n, q) ↦ c.joining j m q
    ];
    alone = λ k m j p x. elim (update_cases pc i (joins id) k (joins m) p) [
      | inl (o, q) ↦ others k j o x
      | inr (n, q) ↦ absurd (no_other k m q)
    ];
    sound = λ j p. elim (update_cases pc i (joins id) j faulted p) [
      | inl (o, q) ↦ cc (q)
      | inr (n, q) ↦ c.sound j q
    ];
    unstuck = λ j m p. elim (update_cases pc i (joins id) j (waits m) p) [
      | inl (o, q) ↦ cc (q)
      | inr (n, q) ↦ c.unstuck j m q
    ];
  }
    where
      not_holding : (m : ℕ) → pc i ≢ holds m
      not_holding m q = cc (h i z, q)

      no_other : (k m : ℕ) → pc k ≢ joins m
      no_other k m q = cc (h k (c.joining k m q).1, q)

      others : (k j : ℕ) → k ≡ i → 0 < j → (j ≡ k) ⊎ (update pc i (joins id) j ≡ resting)
      others k j o x = elim (Bool-cases (j == i)) [
        | inl y ↦ inl ((==_iff j i).0 y ∙ sym o)
        | inr y ↦ inr (rw y (h j x))
      ]

  -- Where the joining thread and the background thread are all that is left, all rest behind it.
  pub released_rest :
      (id : ℕ) → pc i ≡ joins id → pc 0 ≡ resting → (j : ℕ) → update pc i resting j ≡ resting
  released_rest id e z j = elim (Bool-cases (j == i)) [ inl y ↦ rw y refl | inr y ↦ rw y (go j y) ]
    where
      go : (k : ℕ) → (k == i) ≡ false → pc k ≡ resting
      go zero y = z
      go (suc k) y = elim (c.alone i id (suc k) e (omega arith)) [
        | inl o ↦ cc (y, (==_iff (suc k) i).1 o)
        | inr r ↦ r
      ]
