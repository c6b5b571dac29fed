-- ===== src/Merge/Inputs/Keys.antt =====
-- The key images of merged inputs (daemon/model/MoneroTx.ts).
use qwertycoin_ts.Common.{
  ◌≡◌, refl, sym, ap, ◌∙◌, subst, Bool, true, false, ◌||◌, List, [], ◌∷◌, Option, none, some, arith,
  All, Bool-cases, inl, inr,
}
use qwertycoin_ts.Common.Result.{Result, ok, err, ◌>>=◌}
use qwertycoin_ts.GenUtils.Reconcile.{
  Value, undefined, same, same_iff, reconcile, Config, no_config, ReconcileError,
}
use qwertycoin_ts.Merge.{KeyImage, Output, merge_key_image, merge_key_images, merge_output}
use qwertycoin_ts.Merge.Inputs.{
  MergeError, not_reconciled, lift, key_hex, inputs_match, merge_into, merge_all,
}

abbrev hex_in : Option KeyImage → Value
hex_in none = undefined
hex_in (some k) = k.hex

abbrev pub hex_of : Output → Value
hex_of o = hex_in o.key_image

abbrev pub IsKeyed : Output → Type 0
IsKeyed o = (k : KeyImage) × (o.key_image ≡ some k)

abbrev pub has_hex : Value → List Output → Bool
has_hex h [] = false
has_hex h (o ∷ os) = same (hex_of o) h || has_hex h os

-- No two inputs have the same key image.
abbrev pub HasDistinctHexes : List Output → Type 0
HasDistinctHexes [] = Unit
HasDistinctHexes (o ∷ os) = (has_hex (hex_of o) os ≡ false) × HasDistinctHexes os

-- Inputs with key images, none twice.
pub record AreInputs (os : List Output) : Type 0 where
  pub keyed : All IsKeyed os
  pub distinct : HasDistinctHexes os

-- The merged inputs have the key images of both, or a reconciliation failed.
abbrev pub IsUnion : List Output → List Output → Result MergeError (List Output) → Type 0
IsUnion as' ms (ok c) = AreInputs c × ((h : Value) → has_hex h c ≡ (has_hex h as' || has_hex h ms))
IsUnion as' ms (err e) = (r : ReconcileError) × (e ≡ not_reconciled r)

module _ (deep_equal : Value → Value → Bool) where
  reconcile_same : (c : Config) (a b : Value) → same a b ≡ true → reconcile deep_equal c a b ≡ ok a
  unfolding reconcile
  reconcile_same c a b e = rw e refl

  -- A merged key image keeps its hex.
  abbrev KeepsHex : Value → Result ReconcileError (Option KeyImage) → Type 0
  KeepsHex hex (ok k) = (k' : KeyImage) × (k ≡ some k') × (k'.hex ≡ hex)
  KeepsHex hex (err e) = Unit

  signed-KeepsHex :
      (hex : Value) (r : Result ReconcileError Value)
      → KeepsHex hex (
          (r >>= (λ s. ok (record { hex = hex; signature = s })))
          >>= (λ (k : KeyImage). ok (some k)))
  signed-KeepsHex hex (ok s) = (record { hex = hex; signature = s }, refl, refl)
  signed-KeepsHex hex (err e) = tt

  merge_key_images-KeepsHex :
      (a b : KeyImage)
      → same a.hex b.hex ≡ true
      → KeepsHex a.hex (merge_key_images deep_equal (some a) (some b))
  unfolding merge_key_images merge_key_image
  merge_key_images-KeepsHex a b e =
      subst
        (λ r. KeepsHex a.hex (
          (r >>= (λ hex.
            reconcile deep_equal no_config a.signature b.signature
            >>= (λ s. ok (record { hex = hex; signature = s }))))
          >>= (λ (k : KeyImage). ok (some k))))
        (sym (reconcile_same no_config a.hex b.hex e))
        (signed-KeepsHex a.hex (reconcile deep_equal no_config a.signature b.signature))

  -- A merged output keeps its hex.
  abbrev KeepsOutput : Value → Result ReconcileError Output → Type 0
  KeepsOutput hex (ok o) = IsKeyed o × (hex_of o ≡ hex)
  KeepsOutput hex (err e) = Unit

  rest-KeepsOutput :
      (a : Output) (hex : Value) (rk : Result ReconcileError (Option KeyImage))
      (ra ri : Result ReconcileError Value)
      → KeepsHex hex rk
      → KeepsOutput hex (
          rk >>= (λ k. ra >>= (λ amount.
            ri >>= (λ index. ok (record a { key_image = k; amount = amount; index = index })))))
  rest-KeepsOutput a hex (ok k) (ok amount) (ok index) (k', e, h) = ((k', e), ap hex_in e ∙ h)
  rest-KeepsOutput a hex (err e) ra ri h = tt
  rest-KeepsOutput a hex (ok k) (err e) ri h = tt
  rest-KeepsOutput a hex (ok k) (ok amount) (err e) h = tt

  merge_output-KeepsOutput :
      (a b : Output)
      → IsKeyed a
      → IsKeyed b
      → same (hex_of a) (hex_of b) ≡ true
      → KeepsOutput (hex_of a) (merge_output deep_equal a b)
  unfolding merge_output
  merge_output-KeepsOutput a b (ka, ea) (kb, eb) e =
      rest-KeepsOutput a (hex_of a) _ (reconcile deep_equal no_config a.amount b.amount)
        (reconcile deep_equal no_config a.index b.index)
        (subst (λ k. KeepsHex (hex_in k) (merge_key_images deep_equal k b.key_image)) (sym ea)
          (subst (λ k. KeepsHex ka.hex (merge_key_images deep_equal (some ka) k)) (sym eb)
            (merge_key_images-KeepsHex ka kb (
              subst (λ v. same v kb.hex ≡ true) (ap hex_in ea)
                (subst (λ v. same (hex_of a) v ≡ true) (ap hex_in eb) e)))))

  inputs_match-keyed :
      (a m : Output) → IsKeyed a → IsKeyed m → inputs_match a m ≡ ok (same (hex_of a) (hex_of m))
  unfolding inputs_match
  inputs_match-keyed a m (ka, ea) (km, em) =
      ap (λ k. key_hex k >>= (λ x. key_hex m.key_image >>= (λ y. ok (same x y)))) ea
      ∙ ap (λ k. key_hex k >>= (λ y. ok (same ka.hex y))) em
      ∙ ap (λ x. ok (same x km.hex)) (sym (ap hex_in ea))
      ∙ ap (λ y. ok (same (hex_of a) y)) (sym (ap hex_in em))

  merged-IsUnion :
      (a : Output) (as' : List Output) (m : Output) (r : Result ReconcileError Output)
      → AreInputs (a ∷ as')
      → hex_of a ≡ hex_of m
      → KeepsOutput (hex_of a) r
      → IsUnion (a ∷ as') (m ∷ []) (lift r >>= (λ o. ok (o ∷ as')))
  merged-IsUnion a as' m (ok o) i e (k, h) = (
    record {
      keyed = (k, i.keyed.1);
      distinct = (ap (λ x. has_hex x as') h ∙ i.distinct.0, i.distinct.1);
    },
    λ x.
        ap (λ y. same y x || has_hex x as') h
        ∙ absorbed (same (hex_of a) x) (same (hex_of m) x) (has_hex x as') (ap (λ y. same y x) e),
  )
    where
      absorbed : (p q r : Bool) → p ≡ q → (p || r) ≡ ((p || r) || (q || false))
      absorbed p q r e = ground arith
  merged-IsUnion a as' m (err e) i same_hex k = (e, refl)

  kept-IsUnion :
      (a : Output) (as' : List Output) (m : Output) (r : Result MergeError (List Output))
      → AreInputs (a ∷ as')
      → same (hex_of a) (hex_of m) ≡ false
      → IsUnion as' (m ∷ []) r
      → IsUnion (a ∷ as') (m ∷ []) (r >>= (λ rest. ok (a ∷ rest)))
  kept-IsUnion a as' m (ok rest) i e (j, h) = (
    record {
      keyed = (i.keyed.0, j.keyed);
      distinct = (
        h (hex_of a)
            ∙ absent (has_hex (hex_of a) as') (same (hex_of m) (hex_of a)) i.distinct.0
                (ground (arith, same_iff (hex_of a) (hex_of m), same_iff (hex_of m) (hex_of a))),
        j.distinct,
      );
    },
    λ x. ap (λ y. same (hex_of a) x || y) (h x) ∙ moved (same (hex_of a) x) (has_hex x as') _,
  )
    where
      absent : (p q : Bool) → p ≡ false → q ≡ false → (p || (q || false)) ≡ false
      absent p q e f = ground arith

      moved : (p q r : Bool) → (p || (q || r)) ≡ ((p || q) || r)
      moved p q r = ground arith
  kept-IsUnion a as' m (err e) i ne (r, h) = (r, h)

  merge_into-IsUnion :
      (as' : List Output) (m : Output)
      → AreInputs as'
      → IsKeyed m
      → IsUnion as' (m ∷ []) (merge_into deep_equal inputs_match as' m)
  unfolding merge_into
  merge_into-IsUnion [] m i k = (record { keyed = (k, tt); distinct = (refl, tt) }, λ h. refl)
  merge_into-IsUnion (a ∷ as') m i k =
      let tail : AreInputs as' = record { keyed = i.keyed.1; distinct = i.distinct.1 } in
      let step : Bool → Result MergeError (List Output) = λ found. elim found [
        | true ↦ lift (merge_output deep_equal a m) >>= (λ o. ok (o ∷ as'))
        | false ↦ merge_into deep_equal inputs_match as' m >>= (λ rest. ok (a ∷ rest))
      ] in
      let matched = inputs_match-keyed a m i.keyed.0 k in
      subst (λ r. IsUnion (a ∷ as') (m ∷ []) (r >>= step)) (sym matched)
        (elim (Bool-cases (same (hex_of a) (hex_of m))) [
          | inl e ↦
              subst (λ b. IsUnion (a ∷ as') (m ∷ []) (step b)) (sym e)
                (merged-IsUnion a as' m _ i ((same_iff _ _).0 e)
                  (merge_output-KeepsOutput a m i.keyed.0 k e))
          | inr e ↦
              subst (λ b. IsUnion (a ∷ as') (m ∷ []) (step b)) (sym e)
                (kept-IsUnion a as' m _ i e (merge_into-IsUnion as' m tail k))
        ])

  merge_rest :
      (as' : List Output) (m : Output) (ms : List Output) (r : Result MergeError (List Output))
      → IsUnion as' (m ∷ []) r
      → ((c : List Output) → AreInputs c → IsUnion c ms (merge_all deep_equal inputs_match c ms))
      → IsUnion as' (m ∷ ms) (r >>= (λ c. merge_all deep_equal inputs_match c ms))
  merge_rest as' m ms (err e) u rest = u
  merge_rest as' m ms (ok c) (i, h) rest =
      joined (merge_all deep_equal inputs_match c ms) (rest c i)
    where
      moved : (p q r : Bool) → ((p || (q || false)) || r) ≡ (p || (q || r))
      moved p q r = ground arith

      joined : (r : Result MergeError (List Output)) → IsUnion c ms r → IsUnion as' (m ∷ ms) r
      joined (err e) u = u
      joined (ok d) (j, g) = (
        j,
        λ x. g x ∙ ap (λ b. b || has_hex x ms) (h x) ∙ moved (has_hex x as') (same (hex_of m) x) _,
      )

-- Merging inputs that have key images into inputs with key images of which no two are the same gives
-- inputs of which no two have the same key image, and which have a key image exactly if one of the
-- merged inputs has it; the only errors are those of a reconciliation.
pub merge_all-IsUnion :
    (deep_equal : Value → Value → Bool) (as' ms : List Output)
    → AreInputs as'
    → All IsKeyed ms
    → IsUnion as' ms (merge_all deep_equal inputs_match as' ms)
unfolding merge_all
merge_all-IsUnion deep_equal as' [] i k = (i, λ h. ground arith)
merge_all-IsUnion deep_equal as' (m ∷ ms) i k =
    merge_rest deep_equal as' m ms _ (merge_into-IsUnion deep_equal as' m i k.0)
      (λ c j. merge_all-IsUnion deep_equal c ms j k.1)
