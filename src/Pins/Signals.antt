-- ===== src/Pins/Signals.antt =====
-- What digitalRead answers after writes, and what a listener learns from the signals.
use bit_magic_zi_modem.Base.{
  ◌≡◌, refl, sym, subst, ap, ◌∙◌, ◌↔◌, true, Option, none, some, List, [], ◌∷◌, ◌++◌, arith,
  if◌then◌else◌, inl, inr, Bool-cases,
}
use bit_magic_zi_modem.Base.Int.{ℤ, ◌==ℤ◌, ==ℤ_iff}
use bit_magic_zi_modem.Pins.{
  Table, find, assign, Pins, Signal, signal, differs, notify, digital_write, digital_read,
}

==ℤ-refl : (a : ℤ) → (a ==ℤ a) ≡ true
==ℤ-refl a = (==ℤ_iff a a).1 refl

pub find-assign :
    (t : Table) (k j v : ℤ) → find (assign t k v) j ≡ (if k ==ℤ j then some v else find t j)
unfolding find assign
find-assign [] k j v = refl
find-assign ((i, w) ∷ t) k j v =
    ground (arith, ==ℤ_iff i k, ==ℤ_iff i j, ==ℤ_iff k j, find-assign t k j v)

module _ {C : Type 0} where
  -- digitalRead answers the value last written to the pin, and 0 for a pin never written.
  pub digital_read-digital_write :
      (p : Pins C) (k j v : ℤ)
      → digital_read (digital_write p k v).1 j ≡ (if k ==ℤ j then v else digital_read p j)
  unfolding digital_read digital_write
  digital_read-digital_write p k j v =
      rw (find-assign p.value k j v) (elim (Bool-cases (k ==ℤ j)) [ inl e ↦ rw e | inr e ↦ rw e ])

  unfoldable pub digital_writes : Pins C → List (ℤ × ℤ) → List (Signal C) × Pins C
  digital_writes p [] = ([], p)
  digital_writes p ((pin, v) ∷ ws) =
      let r = digital_write p pin v in let rest = digital_writes r.1 ws in (r.0 ++ rest.0, rest.1)

  -- A listener that keeps, for each pin, the value of the last signal.
  abbrev pub hear : (ℤ → Option ℤ) → List (Signal C) → ℤ → Option ℤ
  hear known [] j = known j
  hear known (signal cb pin v ∷ es) j = hear (λ k. if pin ==ℤ k then some v else known k) es j

  hear-append :
      (known : ℤ → Option ℤ) (es fs : List (Signal C)) (j : ℤ)
      → hear known (es ++ fs) j ≡ hear (hear known es) fs j
  hear-append known [] fs j = refl
  hear-append known (signal cb pin v ∷ es) fs j =
      hear-append (λ k. if pin ==ℤ k then some v else known k) es fs j

  hear-ext :
      (f g : ℤ → Option ℤ) (es : List (Signal C)) (j : ℤ)
      → ((k : ℤ) → f k ≡ g k)
      → hear f es j ≡ hear g es j
  hear-ext f g es j h = λ i. hear (λ k. h k i) es j

  hear-notify :
      (known : ℤ → Option ℤ) (cb : C) (o : Option ℤ) (pin v j : ℤ)
      → known pin ≡ o
      → hear known (notify (some cb) (differs o v) pin v) j
        ≡ (if pin ==ℤ j then some v else known j)
  hear-notify known cb none pin v j e = refl
  hear-notify known cb (some w) pin v j e = elim (Bool-cases (w ==ℤ v)) [
    | inl t ↦ elim (Bool-cases (pin ==ℤ j)) [
      | inl q ↦ rw (t, q) (ap known (sym ((==ℤ_iff pin j).0 q)) ∙ e ∙ ap some ((==ℤ_iff w v).0 t))
      | inr q ↦ rw (t, q)
    ]
    | inr f ↦ rw f
  ]

  hear-digital_write :
      (p : Pins C) (cb : C) (pin v j : ℤ)
      → p.callback ≡ some cb
      → hear (find p.value) (digital_write p pin v).0 j ≡ find (digital_write p pin v).1.value j
  unfolding digital_write
  hear-digital_write p cb pin v j e =
      ap (λ o. hear (find p.value) (notify o (differs (find p.value pin) v) pin v) j) e
      ∙ hear-notify (find p.value) cb (find p.value pin) pin v j refl
      ∙ sym (find-assign p.value pin j v)

  callback-digital_write :
      (p : Pins C) (pin v : ℤ) → (digital_write p pin v).1.callback ≡ p.callback
  unfolding digital_write
  callback-digital_write p pin v = refl

  signals_of :
      (o : Option ℤ) (cb : C) (pin v : ℤ)
      → (notify (some cb) (differs o v) pin v ≡ []) ↔ (o ≡ some v)
  signals_of none cb pin v = (λ h. ground arith, λ h. ground arith)
  signals_of (some w) cb pin v =
      (λ h. ground (arith, ==ℤ_iff w v), λ h. ground (arith, ==ℤ_iff w v))

  -- With a callback set, a write is silent exactly if the pin already holds the value; the first
  -- write to a pin is told, also where it writes the 0 that digitalRead answered before.
  pub digital_write-silent :
      (p : Pins C) (cb : C) (pin v : ℤ)
      → p.callback ≡ some cb
      → ((digital_write p pin v).0 ≡ []) ↔ (find p.value pin ≡ some v)
  unfolding digital_write
  digital_write-silent p cb pin v e =
      subst
        (λ o. (notify o (differs (find p.value pin) v) pin v ≡ []) ↔ (find p.value pin ≡ some v))
        (sym e) (signals_of (find p.value pin) cb pin v)

  -- A listener that begins with the values of the table has, after any sequence of writes, the
  -- values of the table again: the signals leave out no change.
  pub hear-digital_writes :
      (p : Pins C) (cb : C) (ws : List (ℤ × ℤ)) (j : ℤ)
      → p.callback ≡ some cb
      → hear (find p.value) (digital_writes p ws).0 j ≡ find (digital_writes p ws).1.value j
  unfolding digital_writes
  hear-digital_writes p cb [] j e = refl
  hear-digital_writes p cb ((pin, v) ∷ ws) j e =
      hear-append (find p.value) (digital_write p pin v).0 _ j
      ∙ hear-ext _ _ (digital_writes (digital_write p pin v).1 ws).0 j
          (λ k. hear-digital_write p cb pin v k e)
      ∙ hear-digital_writes (digital_write p pin v).1 cb ws j (callback-digital_write p pin v ∙ e)
