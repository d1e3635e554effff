-- ===== src/Host/Threads/Calm.antt =====
-- Where the threads stand, against the active instance and its callback_mutex: what each change of
-- one thread keeps.
use bit_magic_zi_modem.Base.{
  ℕ, ◌≡◌, ◌≢◌, ◌<◌, refl, sym, ap, ◌∙◌, ◌⊎◌, inl, inr, Bool, true, false, Option, none, some, ◌==◌,
  ==_iff, arith, Bool-cases,
}
use bit_magic_zi_modem.Host.Threads.{
  Delivery, target, Pc, resting, owes, holds, waits, joins, faulted, update,
}

-- A thread that owes a call, is in a callback or joins has to do with the active instance; the mutex
-- is locked where a thread holds it, and that is one thread; while a thread joins, all others of
-- the host rest.
pub record IsCalm (a : Option ℕ) (l : Bool) (pc : ℕ → Pc) : Type 0 where
  pub owed : (i : ℕ) (d : Delivery) → pc i ≡ owes d → a ≡ some (target d)
  pub held : (i id : ℕ) → pc i ≡ holds id → (a ≡ some id) × (l ≡ true)
  pub one : (i j id k : ℕ) → pc i ≡ holds id → pc j ≡ holds k → i ≡ j
  pub holder : l ≡ true → (i : ℕ) × (id : ℕ) × (pc i ≡ holds id)
  pub joining : (i id : ℕ) → pc i ≡ joins id → (a ≡ some id) × (0 < i)
  pub alone : (i id j : ℕ) → pc i ≡ joins id → 0 < j → (j ≡ i) ⊎ (pc j ≡ resting)
  pub sound : (i : ℕ) → pc i ≢ faulted
  pub unstuck : (i id : ℕ) → pc i ≢ waits id

pub update_self {ℓ} : {A : Type ℓ} (f : ℕ → A) (i : ℕ) (x : A) → update f i x i ≡ x
update_self f i x = rw ((==_iff i i).1 refl)

pub update_other {ℓ} :
    {A : Type ℓ} (f : ℕ → A) (i : ℕ) (x : A) (j : ℕ) → j ≢ i → update f i x j ≡ f j
update_other f i x j n = elim (Bool-cases (j == i)) [
  | inl h ↦ absurd (n ((==_iff j i).0 h))
  | inr h ↦ rw h refl
]

-- A thread behind a change of one: that one, or another that stands as before.
pub update_cases :
    (pc : ℕ → Pc) (i : ℕ) (x : Pc) (j : ℕ) (y : Pc)
    → update pc i x j ≡ y
    → ((j ≡ i) × (x ≡ y)) ⊎ ((j ≢ i) × (pc j ≡ y))
update_cases pc i x j y e = elim (Bool-cases (j == i)) [
  | inl h ↦
      let p = (==_iff j i).0 h in inl (p, sym (update_self pc i x) ∙ ap (update pc i x) (sym p) ∙ e)
  | inr h ↦
      let n : j ≢ i = λ p. differs (sym h ∙ (==_iff j i).1 p) in
      inr (n, sym (update_other pc i x j n) ∙ e)
]
  where
    differs : false ≡ true → ⊥
    differs q = cc

-- A thread that rests, or owes a call to the active instance.
pub data IsPlain (a : Option ℕ) : Pc → Type 0 where
  rests : IsPlain a resting
  owing : (d : Delivery) → a ≡ some (target d) → IsPlain a (owes d)

module _ (a : Option ℕ) where
  plain_owed : (x : Pc) → IsPlain a x → (d : Delivery) → x ≡ owes d → a ≡ some (target d)
  plain_owed x rests d q = cc
  plain_owed x (owing f p) d q = p ∙ cc (q)

  plain_holds : (x : Pc) → IsPlain a x → (id : ℕ) → x ≢ holds id
  plain_holds x rests id q = cc
  plain_holds x (owing f p) id q = cc

  plain_joins : (x : Pc) → IsPlain a x → (id : ℕ) → x ≢ joins id
  plain_joins x rests id q = cc
  plain_joins x (owing f p) id q = cc

  plain_waits : (x : Pc) → IsPlain a x → (id : ℕ) → x ≢ waits id
  plain_waits x rests id q = cc
  plain_waits x (owing f p) id q = cc

  plain_faulted : (x : Pc) → IsPlain a x → x ≢ faulted
  plain_faulted x rests q = cc
  plain_faulted x (owing f p) q = cc

-- A thread at rest, behind a change of one that is then at rest or is another.
pub update_rest :
    (pc : ℕ → Pc) (i : ℕ) (x : Pc) (j : ℕ)
    → (j ≡ i → x ≡ resting)
    → pc j ≡ resting
    → update pc i x j ≡ resting
update_rest pc i x j h r = elim (Bool-cases (j == i)) [
  | inl e ↦ rw e (h ((==_iff j i).0 e))
  | inr e ↦ rw e r
]

module _ (a : Option ℕ) (l : Bool) (pc : ℕ → Pc) (c : IsCalm a l pc) (i : ℕ) where
  -- A thread that is in no callback and does not join goes on to rest or to owe a call; it does so
  -- while another joins only if it is the background thread, or rests.
  pub plain-IsCalm :
      (x : Pc)
      → ((id : ℕ) → pc i ≢ holds id)
      → ((id : ℕ) → pc i ≢ joins id)
      → IsPlain a x
      → ((k id : ℕ) → pc k ≡ joins id → (i ≡ 0) ⊎ (x ≡ resting))
      → IsCalm a l (update pc i x)
  plain-IsCalm x no_hold no_join plain h = record {
    owed = λ j d e. elim (update_cases pc i x j (owes d) e) [
      | inl (p, q) ↦ plain_owed a x plain d q
      | inr (n, q) ↦ c.owed j d q
    ];
    held = λ j id e. elim (update_cases pc i x j (holds id) e) [
      | inl (p, q) ↦ absurd (plain_holds a x plain id q)
      | inr (n, q) ↦ c.held j id q
    ];
    one = λ j k id m e f. elim (update_cases pc i x j (holds id) e) [
      | inl (p, q) ↦ absurd (plain_holds a x plain id q)
      | inr (n, q) ↦ elim (update_cases pc i x k (holds m) f) [
        | inl (p, r) ↦ absurd (plain_holds a x plain m r)
        | inr (o, r) ↦ c.one j k id m q r
      ]
    ];
    holder = λ e.
        let t = c.holder e in
        (t.0, t.1, update_other pc i x t.0 (λ p. no_hold t.1 (ap pc (sym p) ∙ t.2)) ∙ t.2);
    joining = λ j id e. elim (update_cases pc i x j (joins id) e) [
      | inl (p, q) ↦ absurd (plain_joins a x plain id q)
      | inr (n, q) ↦ c.joining j id q
    ];
    alone = λ k id j e z. elim (update_cases pc i x k (joins id) e) [
      | inl (p, q) ↦ absurd (plain_joins a x plain id q)
      | inr (n, q) ↦ elim (c.alone k id j q z) [
        | inl p ↦ inl p
        | inr r ↦ inr (update_rest pc i x j (rest k id j q z) r)
      ]
    ];
    sound = λ j e. elim (update_cases pc i x j faulted e) [
      | inl (p, q) ↦ plain_faulted a x plain q
      | inr (n, q) ↦ c.sound j q
    ];
    unstuck = λ j id e. elim (update_cases pc i x j (waits id) e) [
      | inl (p, q) ↦ plain_waits a x plain id q
      | inr (n, q) ↦ c.unstuck j id q
    ];
  }
    where
      rest : (k id j : ℕ) → pc k ≡ joins id → 0 < j → j ≡ i → x ≡ resting
      rest k id j q z e = elim (h k id q) [ inl o ↦ absurd (omega (arith, z, o, e)) | inr o ↦ o ]

-- All threads rest, and the mutex is free or there is none.
pub rest-IsCalm : (a : Option ℕ) (pc : ℕ → Pc) → ((j : ℕ) → pc j ≡ resting) → IsCalm a false pc
rest-IsCalm a pc h = record {
  owed = λ i d e. cc (h i, e);
  held = λ i id e. cc (h i, e);
  one = λ i j id k e f. cc (h i, e);
  holder = λ e. cc (e);
  joining = λ i id e. cc (h i, e);
  alone = λ i id j e z. inr (h j);
  sound = λ i e. cc (h i, e);
  unstuck = λ i id e. cc (h i, e);
}

-- Without an active instance nothing is left to do.
pub no_instance : (l : Bool) (pc : ℕ → Pc) → IsCalm none l pc → (j : ℕ) → pc j ≡ resting
no_instance l pc c j = go (pc j) refl
  where
    go : (x : Pc) → pc j ≡ x → x ≡ resting
    go resting e = refl
    go (owes d) e = cc (c.owed j d e)
    go (holds id) e = cc ((c.held j id e).0)
    go (joins id) e = cc ((c.joining j id e).0)
    go (waits id) e = absurd (c.unstuck j id e)
    go faulted e = absurd (c.sound j e)
