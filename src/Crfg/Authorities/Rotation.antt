-- ===== src/Crfg/Authorities/Rotation.antt =====
-- srml/yee-crfg/src/lib.rs: the authority of each block joins the authorities, and the oldest leave.
use yeeroot.Prelude.{
  ℕ, suc, ◌-◌, ◌^◌, ◌≤◌, ◌<◌, ◌≡◌, refl, none, List, [], ◌∷◌, ◌++◌, arith, leb, length, drop,
  length-append, true, Bool-cases, inl, inr, ap,
}
use yeeroot.Crfg.Authorities.{
  max_authorities_size, Crfg, authorities_change_signal, trim, update_authorities_inner,
  update_authorities, signal_of, signal_change, apply_change, finalize,
}

-- The loop drops the oldest authorities, just so many that one more fits.
trim-drop : (xs : List (ℕ × ℕ)) → trim xs ≡ drop (length xs - (max_authorities_size - 1)) xs
unfolding trim
trim-drop [] = refl
trim-drop (x ∷ xs) = elim (Bool-cases (leb max_authorities_size (length (x ∷ xs)))) [
  | inl e ↦
      let step : length (x ∷ xs) - 12 ≡ suc (length xs - 12) = ground (arith, e) in
      ground (arith, e, trim-drop xs, ap (λ n. drop n (x ∷ xs)) step)
  | inr e ↦
      let none_left : length (x ∷ xs) - 12 ≡ 0 = ground (arith, e) in
      ground (arith, e, ap (λ n. drop n (x ∷ xs)) none_left)
]

length-trim : (xs : List (ℕ × ℕ)) → length (trim xs) < max_authorities_size
unfolding trim
length-trim [] = omega arith
length-trim (x ∷ xs) = ground (arith, length-trim xs)

-- A block's inherent and the end of the block, if the system's height is the block's number: the
-- authority of the block joins the authorities with weight one, the oldest leave so that there are at
-- most as many as the maximum, nothing stays pending, and the new authorities are signalled once.
pub finalize-rotates :
    (block_number info : ℕ) (s : Crfg)
    → block_number < 2 ^ 64
    → let next =
        drop (length s.authorities - (max_authorities_size - 1)) s.authorities ++ (info, 1) ∷ [] in
      let s' = finalize block_number (update_authorities true block_number info s).1 in
      (s'.authorities ≡ next)
      × (length s'.authorities ≤ max_authorities_size)
      × (s'.pending_change ≡ none)
      × (s'.signals ≡ s.signals ++ authorities_change_signal 0 next ∷ [])
unfolding finalize update_authorities update_authorities_inner apply_change signal_change signal_of
finalize-rotates block_number info s fits = ground (
  arith,
  trim-drop s.authorities,
  length-trim s.authorities,
  length-append (trim s.authorities) ((info, 1) ∷ []),
)
