-- ===== src/Pow/Verifier/Checks/Sound.antt =====
-- What a block shows that the verifier accepts.
use yeeroot.Prelude.{
  ℕ, ◌≡◌, refl, sym, ap, subst, Bool, true, Option, none, some, List, [], ◌∷◌, ◌++◌, length,
  Option-cases, arith, inl, inr,
}
use yeeroot.Pow.{Header, PowSeal, as_pow_seal}
use yeeroot.Pow.Compact.Climb.{climb}
use yeeroot.Pow.Outcome.{ok, ok_or, bind-ok, ok_or-ok}
use yeeroot.Pow.Target.{calc_pow_target}
use yeeroot.Pow.Work.{check_work_proof}
use yeeroot.Pow.Verifier.{phase_ok, check_scale, get_original_shard_num}
use yeeroot.Pow.Verifier.Checks.Worked.{Worked, check_work_proof-Worked}
use yeeroot.Pow.Verifier.Checks.{
  pop_log, check_relay_merkle_proof, check_body, ImportBlock, PowVerifier, info_of, phase_of,
  check_pow_target, numbers, check_phase, check_own_num, Unsealed, before_scale, scale_check,
  after_scale, verify_header, asked, verify,
}

pop_log-none : {Item : Type 0} (logs : List Item) → pop_log logs ≡ none → logs ≡ []
unfolding pop_log
pop_log-none [] eq = refl
pop_log-none (x ∷ xs) eq = absurd (ground arith)

pop_log-append :
    {Item : Type 0} (logs rest : List Item) (last : Item)
    → pop_log logs ≡ some (rest, last)
    → logs ≡ rest ++ (last ∷ [])
unfolding pop_log
pop_log-append [] rest last eq = absurd (ground arith)
pop_log-append (x ∷ xs) rest last eq = elim (Option-cases (pop_log xs)) [
  | inl empty ↦ ground (arith, pop_log-none xs empty, empty, eq)
  | inr ((r, l), more) ↦ ground (arith, pop_log-append xs r l more, more, eq)
]

module _ {Item Tree : Type 0} (v : PowVerifier Item Tree) where
  check_pow_target-ok :
      (header : Header Item) (seal : PowSeal) (u : Unit {0})
      → check_pow_target v header seal ≡ ok u
      → calc_pow_target v.digests v.context v.client header seal.timestamp ≡ ok seal.pow_target
  unfolding check_pow_target
  check_pow_target-ok header seal u eq = ground arith

  check_phase-ok :
      (header : Header Item) (info : ℕ × ℕ)
      → check_phase v header ≡ ok info
      → (parent : Header Item) × (info_of v header ≡ some info)
        × (v.client.header_at header.parent_hash ≡ some parent)
        × (phase_ok (numbers v header info) (phase_of v parent) (phase_of v header) ≡ true)
  unfolding check_phase
  check_phase-ok header info eq = ground arith

  check_own_num-ok :
      (info : ℕ × ℕ) (u : Unit {0})
      → check_own_num v info ≡ ok u
      → get_original_shard_num v.shard_extra.shard_num v.shard_extra.shard_count info.1 ≡ ok info.0
  unfolding check_own_num
  check_own_num-ok info u eq = ground arith

  before_scale-ok :
      (sealed : Header Item) (out : Unsealed v)
      → before_scale v sealed ≡ ok out
      → (sealed.logs ≡ out.0.0.logs ++ (out.0.1 ∷ []))
        × (as_pow_seal v.digests out.0.1 ≡ some out.1.0)
        × (sealed ≡ record out.0.0 { logs = out.0.0.logs ++ (out.0.1 ∷ []) })
        × (check_pow_target v out.0.0 out.1.0 ≡ ok tt)
        × (check_phase v out.0.0 ≡ ok out.1.1)
  unfolding before_scale
  before_scale-ok sealed out eq =
      let (popped, e1, r1) = bind-ok (ok_or (pop_log sealed.logs)) _ out eq in
      let (seal, e2, r2) = bind-ok (ok_or (as_pow_seal v.digests popped.1)) _ out r1 in
      let header : Header Item = record sealed { logs = popped.0 } in
      let (done, e3, r3) = bind-ok (check_pow_target v header seal) _ out r2 in
      let (info, e4, r4) = bind-ok (check_phase v header) _ out r3 in
      let same : out ≡ ((header, popped.1), (seal, info)) = ground (arith, r4) in
      let ends =
        pop_log-append sealed.logs popped.0 popped.1 (ok_or-ok (pop_log sealed.logs) popped e1) in
      let again : sealed ≡ record header { logs = popped.0 ++ (popped.1 ∷ []) } =
        ap (λ (logs : List Item). record sealed { logs = logs }) ends in
      rw same (ends, ok_or-ok (as_pow_seal v.digests popped.1) seal e2, again, e3, e4)

  after_scale-ok :
      (proof : Option (List ℕ)) (body : Option (List (List ℕ))) (u : Unsealed v)
      (b : ImportBlock Item)
      → after_scale v proof body u ≡ ok b
      → (out : Item × ℕ) × (check_own_num v u.1.1 ≡ ok tt)
        × (check_work_proof v.digests v.hashing u.0.0 u.1.0 ≡ ok out)
        × (check_relay_merkle_proof v.foreign proof u.1.0.relay_proof ≡ ok tt)
        × (check_body v.foreign v.shard_extra (info_of v u.0.0) body ≡ ok tt)
        × (b ≡ record { header = u.0.0; proof = proof; post_digests = u.0.1 ∷ []; body = body })
  unfolding after_scale
  after_scale-ok proof body u b eq =
      let (own, e1, r1) = bind-ok (check_own_num v u.1.1) _ b eq in
      let (out, e2, r2) = bind-ok (check_work_proof v.digests v.hashing u.0.0 u.1.0) _ b r1 in
      let (merkle, e3, r3) =
        bind-ok (check_relay_merkle_proof v.foreign proof u.1.0.relay_proof) _ b r2 in
      let (relayed, e4, r4) =
        bind-ok (check_body v.foreign v.shard_extra (info_of v u.0.0) body) _ b r3 in
      (out, e1, e2, e3, e4, ground (arith, r4))

  -- The checks of the body in a block that is accepted.
  pub verify-check_body :
      (sealed : Header Item) (proof : Option (List ℕ)) (body : Option (List (List ℕ)))
      (b : ImportBlock Item)
      → (verify v sealed proof body).0 ≡ ok b
      → (header : Header Item) × (check_body v.foreign v.shard_extra (info_of v header) body
          ≡ ok tt)
  unfolding verify verify_header
  verify-check_body sealed proof body b eq =
      let (u, e1, r1) = bind-ok (before_scale v sealed) (verify_header v proof body) b eq in
      let (quiet, e2, r2) = bind-ok (scale_check v u.0.0).0 _ b r1 in
      let (out, own, worked, merkle, relayed, shape) = after_scale-ok proof body u b r2 in
      (u.0.0, relayed)

  scale_check-quiet :
      (header : Header Item) (u : Unit {0})
      → (scale_check v header).0 ≡ ok u
      → (scale_check v header).1 ≡ none
  unfolding scale_check check_scale
  scale_check-quiet header u eq = ground arith

  module _ (node : ℕ → ℕ → ℕ)
      (validate_law : (x r : ℕ) (ss : List ℕ) (path : List Bool)
        → length ss ≡ length path
        → v.hashing.validate (record { lemma = x ∷ (ss ++ (r ∷ [])); path = path }) ≡ true
        → climb node x ss path ≡ r) where
    -- A block that the verifier accepts is the block it was given: its header with the seal's item
    -- put back is the sealed header, in every field, and its body and proof are those given. For its
    -- header a target is due at the seal's time, and the seal has the work for this target: a hash of
    -- the header with its seal that meets it, or, in a proof for many shards, a Merkle root that
    -- meets it with nonce and extra data and to which the header leads from the place of its shard.
    -- The phase of the scale-out follows the one of the parent, the shard number is the one that the
    -- node's shard has among as many shards as the header has, and the service is not asked to stop
    -- or restart. The Merkle library is assumed to accept only a proof that leads to its root.
    pub verify_sound :
        (sealed : Header Item) (proof : Option (List ℕ)) (body : Option (List (List ℕ)))
        (b : ImportBlock Item)
        → (verify v sealed proof body).0 ≡ ok b
        → (item : Item) × (seal : PowSeal) × (target num cnt : ℕ) × (parent : Header Item) × (sealed
            ≡ record b.header { logs = b.header.logs ++ b.post_digests })
          × ((b.body ≡ body) × (b.proof ≡ proof))
          × (b.post_digests ≡ item ∷ [])
          × (as_pow_seal v.digests item ≡ some seal)
          × (calc_pow_target v.digests v.context v.client b.header seal.timestamp ≡ ok target)
          × Worked v node validate_law b.header seal target
          × (info_of v b.header ≡ some (num, cnt))
          × (v.client.header_at sealed.parent_hash ≡ some parent)
          × (phase_ok (numbers v sealed (num, cnt)) (phase_of v parent) (phase_of v b.header)
              ≡ true)
          × (get_original_shard_num v.shard_extra.shard_num v.shard_extra.shard_count cnt ≡ ok num)
          × ((verify v sealed proof body).1 ≡ none)
    unfolding verify verify_header asked
    verify_sound sealed proof body b eq =
        let (u, e1, r1) = bind-ok (before_scale v sealed) (verify_header v proof body) b eq in
        let (quiet, e2, r2) = bind-ok (scale_check v u.0.0).0 _ b r1 in
        let (popped, sealing, again, target, phase) = before_scale-ok sealed u e1 in
        let (out, own, worked, merkle, relayed, shape) = after_scale-ok proof body u b r2 in
        let (parent, info, known, follows) = check_phase-ok u.0.0 u.1.1 phase in
        let father : u.0.0.parent_hash ≡ sealed.parent_hash =
          sym (ap (λ (h : Header Item). h.parent_hash) again) in
        let number : u.0.0.number ≡ sealed.number =
          sym (ap (λ (h : Header Item). h.number) again) in
        let found : v.client.header_at sealed.parent_hash ≡ some parent =
          subst (λ h. v.client.header_at h ≡ some parent) father known in
        let ordered : phase_ok (numbers v sealed u.1.1) (phase_of v parent) (phase_of v u.0.0)
            ≡ true =
          subst
            (λ n.
              phase_ok (record (numbers v sealed u.1.1) { number = n }) (phase_of v parent)
                (phase_of v u.0.0)
              ≡ true)
            number follows in
        rw (shape, e1)
          (
            u.0.1,
            u.1.0,
            u.1.0.pow_target,
            u.1.1.0,
            u.1.1.1,
            parent,
            again,
            (refl, refl),
            refl,
            sealing,
            check_pow_target-ok u.0.0 u.1.0 tt target,
            check_work_proof-Worked v node validate_law u.0.0 u.1.0 out worked,
            info,
            found,
            ordered,
            check_own_num-ok u.1.1 tt own,
            scale_check-quiet u.0.0 quiet e2,
          )
