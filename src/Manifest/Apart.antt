-- ===== src/Manifest/Apart.antt =====
-- Port windows that do not overlap: what the check of neighbours in sorted order decides.
use nixfied.Prelude.{
  ℕ, ◌<◌, ◌≤◌, ◌≡◌, ◌⊎◌, ◌↔◌, refl, inl, inr, not, [], ◌∷◌, ok, >>-ok, ensure, ensure-ok, leb,
  arith, Bool-cases, Mem,
}
use nixfied.Manifest.Errors.{ValidationError}
use nixfied.Manifest.Placements.{Windows, insert_window, sort_windows, check_neighbours}

-- One window ends before the other starts.
abbrev pub IsApart : ℕ × ℕ → ℕ × ℕ → Type 0
IsApart w v = (w.1 < v.0) ⊎ (v.1 < w.0)

abbrev pub AllApart : Windows → Type 0
AllApart [] = Unit
AllApart (w ∷ ws) = ((v : ℕ × ℕ) → Mem v ws → IsApart w v) × AllApart ws

abbrev pub AllProper : Windows → Type 0
AllProper ws = (w : ℕ × ℕ) → Mem w ws → w.0 ≤ w.1

check_neighbours-after :
    (all : Windows) (w : ℕ × ℕ) (ws : Windows)
    → AllProper (w ∷ ws)
    → check_neighbours all (w ∷ ws) ≡ ok tt
    → (v : ℕ × ℕ) → Mem v ws
    → w.1 < v.0
unfolding check_neighbours
check_neighbours-after all w [] p h v m = absurd m
check_neighbours-after all w (u ∷ us) p h v m =
    let (first, rest) = >>-ok _ (check_neighbours all (u ∷ us)) h in
    let later = λ (n : Mem v us). check_neighbours-after all u us (λ z k. p z (inr k)) rest v n in
    elim m [
      | inl e ↦ rw e (next _ first)
      | inr n ↦ chain (next _ first) (p u (inr (inl refl))) (later n)
    ]
  where
    next : (e : ValidationError) → ensure e (not (leb u.0 w.1)) ≡ ok tt → w.1 < u.0
    next e f = ground (arith, ensure-ok e (not (leb u.0 w.1)))

    chain : w.1 < u.0 → u.0 ≤ u.1 → u.1 < v.0 → w.1 < v.0
    chain a b c = omega arith

pub check_neighbours-AllApart :
    (all ws : Windows) → AllProper ws → check_neighbours all ws ≡ ok tt → AllApart ws
unfolding check_neighbours
check_neighbours-AllApart all [] p h = tt
check_neighbours-AllApart all (w ∷ []) p h = ((λ v m. absurd m), tt)
check_neighbours-AllApart all (w ∷ u ∷ us) p h = (
  (λ v m. inl (check_neighbours-after all w (u ∷ us) p h v m)),
  check_neighbours-AllApart all (u ∷ us) (λ z k. p z (inr k)) (>>-ok _ _ h).1,
)

mem-insert_window : (z w : ℕ × ℕ) (ws : Windows) → Mem z (insert_window w ws) ↔ ((z ≡ w) ⊎ Mem z ws)
unfolding insert_window
mem-insert_window z w [] = ((λ m. m), λ m. m)
mem-insert_window z w (v ∷ vs) = elim (Bool-cases (leb w.0 v.0)) [
  | inl t ↦ rw t ((λ m. m), λ m. m)
  | inr f ↦ rw f (ground (arith, mem-insert_window z w vs))
]

pub IsApart-sym : (w v : ℕ × ℕ) → IsApart w v → IsApart v w
IsApart-sym w v (inl h) = inr h
IsApart-sym w v (inr h) = inl h

-- Windows that are apart in sorted order are apart in every order.
insert_window-AllApart :
    (w : ℕ × ℕ) (ws : Windows)
    → AllApart (insert_window w ws)
    → ((v : ℕ × ℕ) → Mem v ws → IsApart w v) × AllApart ws
unfolding insert_window
insert_window-AllApart w [] h = ((λ v m. absurd m), tt)
insert_window-AllApart w (u ∷ us) h = elim (Bool-cases (leb w.0 u.0)) [
  | inl t ↦ rw t at h
  | inr f ↦ behind (rw f at h) (λ r. insert_window-AllApart w us r)
]
  where
    behind :
        ((v : ℕ × ℕ) → Mem v (insert_window w us) → IsApart u v) × AllApart (insert_window w us)
        → (AllApart (insert_window w us) → ((v : ℕ × ℕ) → Mem v us → IsApart w v) × AllApart us)
        → ((v : ℕ × ℕ) → (v ≡ u) ⊎ Mem v us → IsApart w v)
          × (((v : ℕ × ℕ) → Mem v us → IsApart u v) × AllApart us)
    behind (first, rest) ih = (
      (λ v m. elim m [
        | inl e ↦ rw e (IsApart-sym u w (first w ((mem-insert_window w w us).1 (inl refl))))
        | inr n ↦ (ih rest).0 v n
      ]),
      ((λ v m. first v ((mem-insert_window v w us).1 (inr m))), (ih rest).1),
    )

pub mem-sort_windows : (z : ℕ × ℕ) (ws : Windows) → Mem z (sort_windows ws) ↔ Mem z ws
unfolding sort_windows
mem-sort_windows z [] = ((λ m. m), λ m. m)
mem-sort_windows z (w ∷ ws) =
    grind (arith, mem-insert_window z w (sort_windows ws), mem-sort_windows z ws)

pub sort_windows-AllApart : (ws : Windows) → AllApart (sort_windows ws) → AllApart ws
unfolding sort_windows
sort_windows-AllApart [] h = tt
sort_windows-AllApart (w ∷ ws) h =
    let (first, rest) = insert_window-AllApart w (sort_windows ws) h in
    ((λ v m. first v ((mem-sort_windows v ws).1 m)), sort_windows-AllApart ws rest)
