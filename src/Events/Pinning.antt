-- ===== src/Events/Pinning.antt =====
-- handler/storage/manager.go: the calls and the errors of the manager.
use mathlib.Core.List.{append_assoc, append-nil}
use gitopia_storage.Prelude.{
  ℕ, suc, ◌≡◌, refl, ap, sym, ◌∙◌, arith, Bool, true, false, not, ◌&&◌, ◌||◌, none, some, List, [],
  ◌∷◌, ◌++◌, map, Result, ok, err, ◌==◌, if◌then◌else◌, ◌⊎◌, inl, inr, Bool-cases,
}
use gitopia_storage.Text.{Bytes, codes}
use gitopia_storage.Events.{
  Provider, pinned, unpinned, add_pin, pin_each, pin_file, unpin_file, error_msg, join_errors,
  is_nil,
}

abbrev pub succeeded : Result Bytes Bytes → Bool
succeeded (ok id) = true
succeeded (err e) = false

abbrev pub any_pin : Bytes → Bytes → List Provider → Bool
any_pin path name [] = false
any_pin path name (p ∷ ps) = succeeded (p.pin_file path name) || any_pin path name ps

abbrev pub failure : Provider → Result Bytes Bytes → List Bytes
failure p (ok id) = []
failure p (err e) = error_msg p e ∷ []

abbrev pub failures : Bytes → Bytes → List Provider → List Bytes
failures path name [] = []
failures path name (p ∷ ps) = failure p (p.pin_file path name) ++ failures path name ps

Result-cases : (r : Result Bytes Bytes) → ((id : Bytes) × (r ≡ ok id)) ⊎ ((e : Bytes) × (r ≡ err e))
Result-cases (ok id) = inl (id, refl)
Result-cases (err e) = inr (e, refl)

module _ (path name : Bytes) where
  pin_each-calls :
      (ps : List Provider) (s : ℕ × List Bytes)
      → (pin_each path name ps s).0 ≡ map (λ (p : Provider). pinned p.name path name) ps
  unfolding pin_each
  pin_each-calls [] s = refl
  pin_each-calls (p ∷ ps) s =
      ap (λ cs. pinned p.name path name ∷ cs)
        (pin_each-calls ps (add_pin p (p.pin_file path name) s))

  pin_each-errors :
      (ps : List Provider) (n : ℕ) (errors : List Bytes)
      → (pin_each path name ps (n, errors)).1.1 ≡ errors ++ failures path name ps
  unfolding pin_each
  pin_each-errors [] n errors = sym (append-nil errors)
  pin_each-errors (p ∷ ps) n errors = elim (Result-cases (p.pin_file path name)) [
    | inl (id, e) ↦ rw e (pin_each-errors ps (suc n) errors)
    | inr (m, e) ↦ rw e (
        pin_each-errors ps n (errors ++ error_msg p m ∷ [])
        ∙ append_assoc errors (error_msg p m ∷ []) (failures path name ps))
  ]

  pin_each-successes :
      (ps : List Provider) (n : ℕ) (errors : List Bytes)
      → ((pin_each path name ps (n, errors)).1.0 == 0) ≡ ((n == 0) && not (any_pin path name ps))
  unfolding pin_each
  pin_each-successes [] n errors = ground arith
  pin_each-successes (p ∷ ps) n errors = elim (Result-cases (p.pin_file path name)) [
    | inl (id, e) ↦ rw e (pin_each-successes ps (suc n) errors ∙ ground arith)
    | inr (m, e) ↦ rw e (pin_each-successes ps n (errors ++ error_msg p m ∷ []))
  ]

  all_failed :
      (ps : List Provider)
      → any_pin path name ps ≡ false
      → is_nil (failures path name ps) ≡ is_nil ps
  all_failed [] h = refl
  all_failed (p ∷ ps) h = elim (Result-cases (p.pin_file path name)) [
    | inl (id, e) ↦ absurd (ground (arith, e, h))
    | inr (m, e) ↦ rw e refl
  ]

unpin_file_lem :
    (ps : List Provider) (name : Bytes)
    → unpin_file ps name ≡ (map (λ (p : Provider). unpinned p.name name) ps, none)
unfolding unpin_file
unpin_file_lem [] name = refl
unpin_file_lem (p ∷ ps) name = ap (λ r. (unpinned p.name name ∷ r.0, none)) (unpin_file_lem ps name)

-- A pin asks every provider once, in the order of the configuration, whichever of them fail. It
-- is an error exactly if there are providers and all of them fail, and its text then joins the
-- errors of all. An unpin asks every provider once, in order, and is never an error.
pub pin_file_lem :
    (ps : List Provider) (path name : Bytes)
    → ((pin_file ps path name).0 ≡ map (λ (p : Provider). pinned p.name path name) ps)
      × ((pin_file ps path name).1 ≡ (
          if is_nil ps || any_pin path name ps
          then none
          else some
              (codes "all storage providers failed: " ++ join_errors (failures path name ps))))
      × (unpin_file ps name ≡ (map (λ (p : Provider). unpinned p.name name) ps, none))
unfolding pin_file
pin_file_lem [] path name = (refl, refl, unpin_file_lem [] name)
pin_file_lem (p ∷ ps) path name =
    let all = p ∷ ps in
    (
      pin_each-calls path name all (0, []),
      elim (Bool-cases (any_pin path name all)) [
        | inl h ↦ ground (arith, h, pin_each-successes path name all 0 [])
        | inr h ↦ ground (
          arith,
          h,
          pin_each-successes path name all 0 [],
          pin_each-errors path name all 0 [],
          all_failed path name all h,
        )
      ],
      unpin_file_lem all name,
    )
