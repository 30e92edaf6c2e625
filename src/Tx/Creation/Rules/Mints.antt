-- ===== src/Tx/Creation/Rules/Mints.antt =====
-- What `verify_sum` of hathor/transaction/token_creation_tx.py lets a transaction create.
use khathor.Prelude.{
  refl, [], ◌==◌, ◌-◌, ◌∷◌, ◌⊎◌, List, zero, suc, Bool, some, true, false, inl, inr, ◌≡◌, ◌<◌,
  arith, ℕ, Option-cases, ◌≢◌, Bool-cases, ap, if◌then◌else◌, ◌∙◌, sym,
}
use khathor.Errors.{ok, err, >>=-eq-ok, key_error, invalid_token, guard}
use khathor.Prelude.Int.{ℤ, pos_part, neg_part}
use khathor.Tx.Creation.Rules.{
  verify_sum, verify_sum_of, is_positive, created_token_info, check_minted,
}
use khathor.Tx.Tokens.{
  TokenSettings, Storage, TokenDict, info_of, update_token_info_from_outputs,
  check_authorities_and_deposit, get_token_info_from_inputs, get_info, set_info, tokens_loop,
  TokenInfo, get_token_uid,
}
use khathor.Bytes.{Bytes, bytes_eq, index}
use khathor.Tx.Base.{Tx, Kind, block, transaction}
use khathor.Tx.Output.{TxOutput, get_token_index}
use khathor.Tx.Creation.{TokenCreationTx}
use khathor.Tx.Tokens.Sum.{
  output_amount, has_mint, input_amount, has_melt, is_token, inputs_loop-Tracks,
  outputs_loop-Tracks,
}
use khathor.Tx.Tokens.Balance.{Tracks, get_info-info_of, info_of-set_info}
use khathor.Bytes.Laws.{bytes_eq_refl, ne_bytes}
use khathor.Tx.Tokens.Conserves.{initial-Tracks, tokens_loop-allows}

positive_part : (n : ℤ) → is_positive n ≡ true → (0 < pos_part n) × (neg_part n ≡ 0)
unfolding is_positive
positive_part n h = ground arith

guard_positive :
    (info : TokenInfo)
    → guard (is_positive info.amount) invalid_token ≡ ok tt
    → is_positive info.amount ≡ true
guard_positive info h = elim (Bool-cases (is_positive info.amount)) [
  | inl e ↦ e
  | inr e ↦ let c : err invalid_token ≡ ok tt = rw e at h in cc
]

check_minted-positive :
    (hash : Bytes) (d : TokenDict)
    → check_minted hash d ≡ ok tt
    → is_positive ((info_of hash d).amount) ≡ true
unfolding check_minted
check_minted-positive hash d h = elim (Option-cases (get_info hash d)) [
  | inl n ↦ let c : err key_error ≡ ok tt = rw (n, check_minted) at h in cc
  | inr (info, g) ↦
      rw (get_info-info_of hash d info g) (guard_positive info (rw (g, check_minted) at h))
]

-- What the code knows of the dictionary when `verify_sum` passes.
record Accepted (s : TokenSettings) (storage : Storage) (tx : Tx) (hash : Bytes) : Type 0 where
  start_dict : TokenDict
  end_dict : TokenDict
  totals : ℕ × ℕ
  spent : get_token_info_from_inputs s storage tx ≡ ok start_dict
  created :
      update_token_info_from_outputs s tx (set_info hash created_token_info start_dict)
      ≡ ok end_dict
  minted : check_minted hash end_dict ≡ ok tt
  checked : tokens_loop s end_dict 0 0 ≡ ok totals

module _ (s : TokenSettings) (storage : Storage) (self : TokenCreationTx) (hash : Bytes) where
  verify_sum-hash :
      self.tx.hash ≡ some hash → verify_sum s storage self ≡ verify_sum_of s storage self.tx hash
  unfolding verify_sum
  verify_sum-hash e = ground arith

  verify_sum-Accepted :
      verify_sum s storage self ≡ ok tt → self.tx.hash ≡ some hash → Accepted s storage self.tx hash
  unfolding verify_sum_of check_authorities_and_deposit
  verify_sum-Accepted h e =
      let (d₁, p₁, q₁) =
        >>=-eq-ok (get_token_info_from_inputs s storage self.tx) _ (sym (verify_sum-hash e) ∙ h) in
      let (d₂, p₂, q₂) =
        >>=-eq-ok (update_token_info_from_outputs s self.tx (set_info hash created_token_info d₁)) _
          q₁ in
      let (m, p₃, q₃) = >>=-eq-ok (check_minted hash d₂) _ q₂ in
      let (r, p₄, q₄) = >>=-eq-ok (tokens_loop s d₂ 0 0) _ q₃ in
      record {
        start_dict = d₁;
        end_dict = d₂;
        totals = r;
        spent = p₁;
        created = p₂;
        minted = p₃;
        checked = p₄;
      }

  own_token-Tracks :
      (a : Accepted s storage self.tx hash)
      → Tracks
          (info_of hash a.end_dict)
          0
          (output_amount s storage hash self.tx self.tx.outputs)
          true
          true
  unfolding update_token_info_from_outputs
  own_token-Tracks a =
      let start : Tracks (info_of hash (set_info hash created_token_info a.start_dict)) 0 0 true
          true =
        rw (info_of-set_info hash hash created_token_info a.start_dict)
          (rw (bytes_eq_refl hash) (record { balanced = refl; mints = refl; melts = refl })) in
      let o = outputs_loop-Tracks s storage hash self.tx self.tx.outputs _ _ a.created start in
      record { balanced = omega (arith, o.balanced); mints = o.mints; melts = o.melts }

  other_token-Tracks :
      (t : Bytes) (a : Accepted s storage self.tx hash)
      → bytes_eq t hash ≡ false
      → Tracks
          (info_of t a.end_dict)
          (input_amount s storage t self.tx.inputs)
          (output_amount s storage t self.tx self.tx.outputs)
          (has_mint s storage t false self.tx.inputs)
          (has_melt s storage t false self.tx.inputs)
  unfolding update_token_info_from_outputs get_token_info_from_inputs
  other_token-Tracks t a ne =
      let i =
        inputs_loop-Tracks s storage t self.tx.inputs _ a.start_dict a.spent
          (initial-Tracks t s.hathor_token_uid) in
      let kept : info_of t (set_info hash created_token_info a.start_dict)
          ≡ info_of t a.start_dict =
        info_of-set_info t hash created_token_info a.start_dict
        ∙ ap (λ b. if b then created_token_info else info_of t a.start_dict) ne in
      let o =
        outputs_loop-Tracks s storage t self.tx self.tx.outputs _ _ a.created (rw (← kept) at i) in
      record { balanced = omega (arith, o.balanced); mints = o.mints; melts = o.melts }

  only_token : (t : Bytes) (i : ℕ) → t ≢ hash → is_token t (index (hash ∷ []) i) ≡ false
  unfolding index
  only_token t zero nh = ne_bytes t hash nh
  only_token t (suc i) nh = refl

  -- For any kind of the transaction.
  other_uid :
      (t : Bytes) (kind : Kind) (i : ℕ)
      → self.tx.tokens ≡ hash ∷ []
      → t ≢ hash
      → t ≢ s.hathor_token_uid
      → is_token t (get_token_uid s (record self.tx { kind = kind }) i) ≡ false
  unfolding get_token_uid index
  other_uid t block i own nh nu = elim (Bool-cases (i == 0)) [
    | inl q ↦ rw q (ne_bytes t s.hathor_token_uid nu)
    | inr q ↦ rw q refl
  ]
  other_uid t transaction i own nh nu = elim (Bool-cases (i == 0)) [
    | inl q ↦ rw q (ne_bytes t s.hathor_token_uid nu)
    | inr q ↦ rw q (rw own (only_token t (i - 1) nh))
  ]

  no_other_outputs :
      (t : Bytes)
      → self.tx.tokens ≡ hash ∷ []
      → t ≢ hash
      → t ≢ s.hathor_token_uid
      → (outputs : List TxOutput) → output_amount s storage t self.tx outputs ≡ 0
  unfolding output_amount
  no_other_outputs t own nh nu [] = refl
  no_other_outputs t own nh nu (output ∷ outputs) =
      rw (other_uid t self.tx.kind (get_token_index output) own nh nu)
        (omega (arith, no_other_outputs t own nh nu outputs))

  melted :
      (t : Bytes) (d : TokenDict) (i : ℕ) (mint melt : Bool)
      → output_amount s storage t self.tx self.tx.outputs ≡ 0
      → Tracks (info_of t d) i (output_amount s storage t self.tx self.tx.outputs) mint melt
      → ((info_of t d).can_melt ≡ true) ⊎ (neg_part (info_of t d).amount ≡ 0)
      → (melt ≡ true) ⊎ (i ≡ 0)
  melted t d i mint melt z r (inl m) = inl (sym r.melts ∙ m)
  melted t d i mint melt z r (inr n) = inr (omega (arith, r.balanced, z, n))

  -- When `verify_sum` of a token creation passes, whose list of tokens is its own hash alone, its
  -- outputs of the token that its hash names sum up to more than nothing. Of any other token but
  -- Hathor's it has no amount in its outputs, and in its inputs only where one of the spent outputs
  -- has the melt authority of that token.
  pub creation_mints_own_token :
      verify_sum s storage self ≡ ok tt
      → self.tx.hash ≡ some hash
      → self.tx.tokens ≡ hash ∷ []
      → (0 < output_amount s storage hash self.tx self.tx.outputs)
        × ((t : Bytes)
            → t ≢ hash
            → t ≢ s.hathor_token_uid
            → (output_amount s storage t self.tx self.tx.outputs ≡ 0)
              × ((has_melt s storage t false self.tx.inputs ≡ true)
                  ⊎ (input_amount s storage t self.tx.inputs ≡ 0)))
  creation_mints_own_token h e own =
      let a = verify_sum-Accepted h e in
      let o = own_token-Tracks a in
      let (p, n) = positive_part _ (check_minted-positive hash a.end_dict a.minted) in
      (
        omega (arith, o.balanced, p, n),
        λ t nh nu.
            let r = other_token-Tracks t a (ne_bytes t hash nh) in
            let (x, y) = tokens_loop-allows s t a.end_dict 0 0 a.totals nu a.checked in
            let z = no_other_outputs t own nh nu self.tx.outputs in
            (z, melted t a.end_dict _ _ _ z r y),
      )
