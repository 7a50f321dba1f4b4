-- ===== src/Storage/Shared.antt =====
-- The quota IDs of container_storage.go's `prepareQuotaMap`.
use pouch.Prelude.{
  ℕ, ◌≡◌, refl, ap, sym, ◌∙◌, Bool, Bool-cases, true, false, not, ◌&&◌, inl, inr, Option, none,
  some, List, [], ◌∷◌, ◌++◌, Text, text_eq, text_eq_refl, eq_of_text_eq, is_empty, All, arith,
}
use pouch.Prelude.Task.{done, Yields, Yields-pure, Yields-bind, Yields-then}
use pouch.Storage.Services.{Mount}
use pouch.Storage.Quotas.{
  QMap, check_dup_quota_map, QuotaHost, QuotaState, QuotaConfig, quota_id_for, with_id, added,
  quota_maps, choose, prepare_quota_map,
}

-- of two quota maps with one expression, which is not empty, the IDs are the same
abbrev pub Agree : QMap → QMap → Type 0
Agree p q = is_empty p.expression ≡ false → p.expression ≡ q.expression → p.quota_id ≡ q.quota_id

abbrev pub Shared : List QMap → Type 0
Shared [] = Unit
Shared (q ∷ qms) = All (Agree q) qms × Shared qms

All-last :
    (P : QMap → Type 0) (qms : List QMap) (q : QMap) → All P qms → P q → All P (qms ++ q ∷ [])
All-last P [] q h p = (p, tt)
All-last P (x ∷ qms) q (h, hs) p = (h, All-last P qms q hs p)

Shared-append :
    (qms : List QMap) (q : QMap) → Shared qms → All (λ p. Agree p q) qms → Shared (qms ++ q ∷ [])
Shared-append [] q h k = (tt, tt)
Shared-append (p ∷ qms) q (h, hs) (k, ks) =
    (All-last (Agree p) qms q h k, Shared-append qms q hs ks)

-- the ID that goes with a map: any if none has its expression, else that of the first that has it
abbrev FitsDup : ℕ → Option QMap → Type 0
FitsDup id none = Unit
FitsDup id (some prev) = id ≡ prev.quota_id

all-Agree :
    (qms : List QMap) (p q : QMap) (id : ℕ)
    → p.expression ≡ q.expression
    → id ≡ p.quota_id
    → All (Agree p) qms
    → All (λ r. Agree r (with_id q id)) qms
all-Agree [] p q id e i h = tt
all-Agree (r ∷ qms) p q id e i (h, hs) =
    (λ n k. sym (h (ap is_empty (e ∙ sym k) ∙ n) (e ∙ sym k)) ∙ sym i, all-Agree qms p q id e i hs)

dup-Agree :
    (qms : List QMap) (q : QMap) (id : ℕ)
    → Shared qms
    → FitsDup id (check_dup_quota_map qms q)
    → All (λ p. Agree p (with_id q id)) qms
unfolding check_dup_quota_map
dup-Agree [] q id h k = tt
dup-Agree (p ∷ qms) q id (h, hs) k =
    elim (Bool-cases (not (is_empty q.expression) && text_eq q.expression p.expression)) [
      | inl b ↦
          let same : p.expression ≡ q.expression =
            sym (eq_of_text_eq q.expression p.expression (both (is_empty q.expression) _ b)) in
          let fits : id ≡ p.quota_id = rw b at k in
          (λ _ _. sym fits, all-Agree qms p q id same fits h)
      | inr b ↦ (λ n e. absurd (other p n e b), dup-Agree qms q id hs (rw b at k))
    ]
  where
    both : (x y : Bool) → (not x && y) ≡ true → y ≡ true
    both true y e = absurd (ground (arith, e))
    both false y e = e

    other :
        (p : QMap)
        → is_empty p.expression ≡ false
        → p.expression ≡ q.expression
        → (not (is_empty q.expression) && text_eq q.expression p.expression) ≡ false
        → ⊥
    other p n e b = ground (
      arith,
      b,
      sym (ap is_empty e) ∙ n,
      ap (λ t. text_eq q.expression t) e ∙ text_eq_refl q.expression,
    )

module _ {W : Type 0} (host : QuotaHost W) where
  id-Fits :
      (global : ℕ) (o : Option QMap) → Yields (λ id. FitsDup id o) (quota_id_for host global o)
  unfolding quota_id_for
  id-Fits global none = record { of = λ s t x h. tt }
  id-Fits global (some prev) = Yields-pure prev.quota_id refl

  module _ (global : ℕ) (choice : Mount → Option (Option QMap)) where
    added-Shared :
        (qms : List QMap) (o : Option QMap)
        → Shared qms
        → Yields Shared (added host global choice qms o)
    added-Shared qms none h = Yields-pure qms h
    added-Shared qms (some qm) h =
        Yields-then {Q = λ id. FitsDup id (check_dup_quota_map qms qm)} _ _
          (id-Fits global (check_dup_quota_map qms qm))
          (λ id f.
            Yields-pure (qms ++ with_id qm id ∷ [])
              (Shared-append qms (with_id qm id) h (dup-Agree qms qm id h f)))

    quota_maps-Shared :
        (ms : List Mount) (qms : List QMap)
        → Shared qms
        → Yields Shared (quota_maps host global choice ms qms)
    unfolding quota_maps
    quota_maps-Shared [] qms h = Yields-pure qms h
    quota_maps-Shared (m ∷ ms) qms h = Yields-bind _ _ (λ qm.
        Yields-then {Q = Shared} _ _ (added-Shared qms qm h)
          (λ more k. quota_maps-Shared ms more k))

  -- The mount points of one expression that lists paths share one quota ID: of the quota maps that
  -- `prepareQuotaMap` gives, any two that have the same expression, not the empty one, have the same ID,
  -- whatever the host answers.
  pub prepare_quota_map-Shared :
      (find : Text → Text → Option Text) (c : QuotaConfig) (quota_id : Text) (mounted : Bool)
      (s t : QuotaState W) (qms : List QMap)
      → prepare_quota_map host find c quota_id mounted s ≡ (done qms, t)
      → Shared qms
  unfolding prepare_quota_map
  prepare_quota_map-Shared find c quota_id mounted s t qms h =
      (Yields-bind _ _ (λ global. Yields-bind _ _ (λ mounts.
          quota_maps-Shared global (λ m. choose find c.disk_quota m none) mounts [] tt))).of
        s t qms h
