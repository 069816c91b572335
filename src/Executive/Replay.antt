-- ===== src/Executive/Replay.antt =====
-- srml/yee-executive/src/lib.rs: no extrinsic is applied twice, and what a refused one leaves.
use yeeroot.Prelude.{ℕ, ◌<◌, ◌≡◌, ◌⊎◌, inr, false, Option, none, some, List, arith, ap, ◌∙◌}
use yeeroot.Relay.{RelayParams, decode_relay}
use yeeroot.Executive.Interface.{Runtime, Checked, SystemLaws}
use yeeroot.Executive.{
  bad_signature, stale, future, full_block, note, outcome_of, dispatch_noted, apply_signed,
  apply_unsigned, apply_checked, apply_extrinsic_with_len, is_error,
}

module _ {S : Type 0} (rt : Runtime S) where
  -- An extrinsic that is refused for its signature, for its index, or as a relay that was applied
  -- before, leaves storage as it was.
  pub apply_extrinsic_with_len-refused :
      (uxt : List ℕ) (len : ℕ) (to_note : Option (List ℕ)) (s : S)
      → let r = (apply_extrinsic_with_len rt uxt len to_note s).0 in
        (r ≡ bad_signature) ⊎ ((r ≡ stale) ⊎ (r ≡ future))
        → (apply_extrinsic_with_len rt uxt len to_note s).1 ≡ s
  unfolding apply_extrinsic_with_len apply_checked apply_signed apply_unsigned dispatch_noted
      outcome_of
  apply_extrinsic_with_len-refused uxt len to_note s h = ground arith

  dispatch_noted-relay :
      (xt : Checked) (len : ℕ) (to_note : Option (List ℕ)) (h : ℕ) (s : S)
      → SystemLaws rt
      → rt.relay_extrinsic h (dispatch_noted rt xt len to_note s).1 ≡ rt.relay_extrinsic h s
  unfolding dispatch_noted note
  dispatch_noted-relay xt len none h s laws =
      let (r, s') = rt.dispatch xt.call s in
      ground (arith, laws.relay_applied r len h s', laws.relay_dispatch xt.call h s)
  dispatch_noted-relay xt len (some e) h s laws =
      let noted : S = rt.note_extrinsic e s in
      let (r, s') = rt.dispatch xt.call noted in
      ground (
        arith,
        laws.relay_applied r len h s',
        laws.relay_dispatch xt.call h noted,
        laws.relay_note e h s,
      )

  apply_unsigned-used :
      (uxt : List ℕ) (xt : Checked) (len : ℕ) (to_note : Option (List ℕ)) (rtx : RelayParams)
      (s : S)
      → SystemLaws rt
      → decode_relay rt.codec uxt ≡ some rtx
      → rt.relay_extrinsic rtx.hash (apply_unsigned rt uxt xt len to_note s).1 ≡ 1
  unfolding apply_unsigned
  apply_unsigned-used uxt xt len to_note rtx s laws decoded =
      let set : S = rt.set_relay_extrinsic_exist rtx.hash s in
      ground
        (arith, dispatch_noted-relay xt len to_note rtx.hash set laws, laws.relay_set rtx.hash s)

  unsigned_went :
      (uxt : List ℕ) (len : ℕ) (to_note : Option (List ℕ)) (xt : Checked) (s : S)
      → rt.check uxt s ≡ inr xt
      → xt.sender ≡ none
      → is_error rt (apply_extrinsic_with_len rt uxt len to_note s).0 ≡ false
      → (apply_extrinsic_with_len rt uxt len to_note s).1
        ≡ (apply_unsigned rt uxt xt len to_note s).1
  unfolding apply_extrinsic_with_len apply_checked is_error
  unsigned_went uxt len to_note xt s checked unsigned went = ground (arith)

  used_refused :
      (uxt : List ℕ) (len : ℕ) (to_note : Option (List ℕ)) (rtx : RelayParams) (xt : Checked)
      (s : S)
      → rt.check uxt s ≡ inr xt
      → xt.sender ≡ none
      → decode_relay rt.codec uxt ≡ some rtx
      → rt.relay_extrinsic rtx.hash s ≡ 1
      → let (r, t) = apply_extrinsic_with_len rt uxt len to_note s in
        ((r ≡ stale) ⊎ (r ≡ full_block)) × (t ≡ s)
  unfolding apply_extrinsic_with_len apply_checked apply_unsigned
  used_refused uxt len to_note rtx xt s checked unsigned decoded used = ground arith

  -- Under the laws of the system module, an unsigned relayed extrinsic that was applied is refused when
  -- it comes again, still unsigned by its check: before anything is written, as stale or because the
  -- block is full.
  pub relay_once :
      (uxt : List ℕ) (len : ℕ) (to_note : Option (List ℕ)) (rtx : RelayParams) (xt yt : Checked)
      (s : S)
      → SystemLaws rt
      → rt.check uxt s ≡ inr xt
      → xt.sender ≡ none
      → decode_relay rt.codec uxt ≡ some rtx
      → is_error rt (apply_extrinsic_with_len rt uxt len to_note s).0 ≡ false
      → let s' = (apply_extrinsic_with_len rt uxt len to_note s).1 in
        rt.check uxt s' ≡ inr yt
        → yt.sender ≡ none
        → let (r, t) = apply_extrinsic_with_len rt uxt len to_note s' in
          ((r ≡ stale) ⊎ (r ≡ full_block)) × (t ≡ s')
  relay_once uxt len to_note rtx xt yt s laws checked unsigned decoded went again unsigned' =
      let same = unsigned_went uxt len to_note xt s checked unsigned went in
      let used = apply_unsigned-used uxt xt len to_note rtx s laws decoded in
      used_refused uxt len to_note rtx yt (apply_extrinsic_with_len rt uxt len to_note s).1 again
        unsigned' decoded (ap (λ t. rt.relay_extrinsic rtx.hash t) same ∙ used)

  signed_went :
      (uxt : List ℕ) (len : ℕ) (to_note : Option (List ℕ)) (a n : ℕ) (xt : Checked) (s : S)
      → rt.check uxt s ≡ inr xt
      → xt.sender ≡ some a
      → xt.index ≡ some n
      → is_error rt (apply_extrinsic_with_len rt uxt len to_note s).0 ≡ false
      → (n ≡ rt.account_nonce a s)
        × ((apply_extrinsic_with_len rt uxt len to_note s).1
            ≡ (dispatch_noted rt xt len to_note
                (rt.inc_account_nonce a (rt.make_payment a len s).1)).1)
  unfolding apply_extrinsic_with_len apply_checked apply_signed is_error
  signed_went uxt len to_note a n xt s checked sender index went = ground arith

  old_refused :
      (uxt : List ℕ) (len : ℕ) (to_note : Option (List ℕ)) (a n : ℕ) (xt : Checked) (s : S)
      → rt.check uxt s ≡ inr xt
      → xt.sender ≡ some a
      → xt.index ≡ some n
      → n < rt.account_nonce a s
      → let (r, t) = apply_extrinsic_with_len rt uxt len to_note s in
        ((r ≡ stale) ⊎ (r ≡ full_block)) × (t ≡ s)
  unfolding apply_extrinsic_with_len apply_checked apply_signed
  old_refused uxt len to_note a n xt s checked sender index old = ground arith

  dispatch_noted-nonce :
      (xt : Checked) (len : ℕ) (to_note : Option (List ℕ)) (a : ℕ) (s : S)
      → SystemLaws rt
      → ((t : S) → rt.account_nonce a (rt.dispatch xt.call t).1 ≡ rt.account_nonce a t)
      → rt.account_nonce a (dispatch_noted rt xt len to_note s).1 ≡ rt.account_nonce a s
  unfolding dispatch_noted note
  dispatch_noted-nonce xt len none a s laws kept =
      let (r, s') = rt.dispatch xt.call s in ground (arith, laws.nonce_applied r len a s', kept s)
  dispatch_noted-nonce xt len (some e) a s laws kept =
      let noted : S = rt.note_extrinsic e s in
      let (r, s') = rt.dispatch xt.call noted in
      ground (arith, laws.nonce_applied r len a s', kept noted, laws.nonce_note e a s)

  -- Under the laws of the system module, a signed extrinsic that was applied, with a call that does not
  -- take away its sender's count, is refused when it comes again and its check gives the same sender
  -- and index: before anything is written, as stale or because the block is full.
  pub signed_once :
      (uxt : List ℕ) (len : ℕ) (to_note : Option (List ℕ)) (a n : ℕ) (xt yt : Checked) (s : S)
      → SystemLaws rt
      → ((t : S) → rt.account_nonce a (rt.dispatch xt.call t).1 ≡ rt.account_nonce a t)
      → rt.check uxt s ≡ inr xt
      → xt.sender ≡ some a
      → xt.index ≡ some n
      → is_error rt (apply_extrinsic_with_len rt uxt len to_note s).0 ≡ false
      → let s' = (apply_extrinsic_with_len rt uxt len to_note s).1 in
        rt.check uxt s' ≡ inr yt
        → yt.sender ≡ some a
        → yt.index ≡ some n
        → let (r, t) = apply_extrinsic_with_len rt uxt len to_note s' in
          ((r ≡ stale) ⊎ (r ≡ full_block)) × (t ≡ s')
  signed_once uxt len to_note a n xt yt s laws kept checked sender index went again sender' index' =
      let paid : S = (rt.make_payment a len s).1 in
      let (now, same) = signed_went uxt len to_note a n xt s checked sender index went in
      let counted = dispatch_noted-nonce xt len to_note a (rt.inc_account_nonce a paid) laws kept in
      let moved = ap (λ t. rt.account_nonce a t) same in
      old_refused uxt len to_note a n yt (apply_extrinsic_with_len rt uxt len to_note s).1 again
        sender' index'
        (ground (arith, now, moved, counted, laws.nonce_inc a a paid, laws.nonce_payment a len a s))
