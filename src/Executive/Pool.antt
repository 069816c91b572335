-- ===== src/Executive/Pool.antt =====
-- srml/yee-executive/src/lib.rs: what the pool's check of an extrinsic says of applying it.
use yeeroot.Prelude.{
  ℕ, zero, suc, ◌+◌, ◌-◌, ◌≤◌, ◌<◌, ◌≡◌, ◌⊎◌, inr, refl, true, none, some, List, [], ◌∷◌, arith,
  length, ◌^◌, get_elem?, ltb, if◌then◌else◌, ap, sym, ◌∙◌,
}
use yeeroot.Executive.Interface.{Runtime, Checked, SystemLaws}
use yeeroot.Executive.{
  applied, failed, full_block, valid, missing_indices, validate_signed, validate_transaction,
  outcome_of, dispatch_noted, apply_signed, apply_checked, apply_extrinsic_with_len,
  apply_extrinsic,
}

module _ {S : Type 0} (rt : Runtime S) where
  length-missing_indices :
      (sender expected rounds : ℕ) → length (missing_indices rt sender expected rounds) ≡ rounds
  unfolding missing_indices
  length-missing_indices sender expected zero = refl
  length-missing_indices sender expected (suc rounds) =
      omega (arith, length-missing_indices sender (expected + 1) rounds)

  -- The tag with the number `i` of those for the indices from `expected` on.
  get_elem?-missing_indices :
      (sender expected rounds i : ℕ)
      → get_elem? (missing_indices rt sender expected rounds) i
        ≡ (if ltb i rounds then some (rt.encode_tag sender (expected + i)) else none)
  unfolding missing_indices
  get_elem?-missing_indices sender expected zero i = ground arith
  get_elem?-missing_indices sender expected (suc rounds) zero = ground arith
  get_elem?-missing_indices sender expected (suc rounds) (suc i) =
      let same : expected + 1 + i ≡ expected + suc i = omega arith in
      ground (arith, get_elem?-missing_indices sender (expected + 1) rounds i, same)

  validate_signed-valid :
      (a n len p : ℕ) (req prov : List (List ℕ)) (s : S)
      → SystemLaws rt
      → rt.account_nonce a s + 256 < 2 ^ 64
      → validate_signed rt a n len s ≡ valid p req prov
      → (rt.account_nonce a s ≤ n)
        × (n ≤ rt.account_nonce a s + 256)
        × (length req ≡ n - rt.account_nonce a s)
        × (req ≡ missing_indices rt a (rt.account_nonce a s) (n - rt.account_nonce a s))
        × (prov ≡ rt.encode_tag a n ∷ [])
        × ((rt.make_payment a len s).0 ≡ true)
  unfolding validate_signed
  validate_signed-valid a n len p req prov s laws room h = ground (
    arith,
    laws.nonce_payment a len a s,
    length-missing_indices a (rt.account_nonce a s) (n - rt.account_nonce a s),
  )

  -- Under the laws of the system module, a signed extrinsic that the pool takes provides the tag of
  -- its sender and its index, and requires the tags of the sender's missing indices in order, from
  -- the sender's count up to its own index and no other, at most 256 of them; one that requires none
  -- is not refused by a block for its signature, its index or its fee. The sender's count is assumed
  -- to be 256 or more below the largest `u64`.
  pub validate_transaction-applies :
      (uxt : List ℕ) (shard_count a n p : ℕ) (req prov : List (List ℕ)) (xt : Checked) (s : S)
      (i : ℕ)
      → SystemLaws rt
      → rt.check uxt s ≡ inr xt
      → xt.sender ≡ some a
      → xt.index ≡ some n
      → rt.account_nonce a s + 256 < 2 ^ 64
      → validate_transaction rt uxt shard_count s ≡ valid p req prov
      → (prov ≡ rt.encode_tag a n ∷ [])
        × (length req + rt.account_nonce a s ≡ n)
        × (get_elem? req i ≡ (
            if ltb i (length req) then some (rt.encode_tag a (rt.account_nonce a s + i)) else none))
        × (length req ≤ 256)
        × ((0 < length req)
            ⊎ (((apply_extrinsic rt uxt s).0 ≡ applied)
                ⊎ (((apply_extrinsic rt uxt s).0 ≡ failed)
                    ⊎ ((apply_extrinsic rt uxt s).0 ≡ full_block))))
  unfolding validate_transaction apply_extrinsic apply_extrinsic_with_len apply_checked apply_signed
      dispatch_noted outcome_of
  validate_transaction-applies uxt shard_count a n p req prov xt s i laws checked sender index room
        h =
      let signed : validate_signed rt a n (length uxt) s ≡ valid p req prov = ground arith in
      let (low, high, len, tags, own, paid) =
        validate_signed-valid a n (length uxt) p req prov s laws room signed in
      (
        own,
        omega (arith, low, len),
        ap (λ l. get_elem? l i) tags
            ∙ get_elem?-missing_indices a (rt.account_nonce a s) (n - rt.account_nonce a s) i
            ∙ ap (λ m. if ltb i m then some (rt.encode_tag a (rt.account_nonce a s + i)) else none)
                (sym len),
        omega (arith, low, high, len),
        ground (arith, low, high, len, paid),
      )
