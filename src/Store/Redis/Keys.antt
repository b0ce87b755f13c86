-- ===== src/Store/Redis/Keys.antt =====
-- The keys and field names of store/redis tell guilds and users apart.
use catalogger.Base.{
  nat_eq, Bool-cases, drop, ◌==◌, Eq, bytes, text_eq_instance, bytes-injective, ℕ, ◌≡◌, sym, ap,
  ◌∙◌, inl, inr, Bool, true, false, not, ◌&&◌, ◌||◌, ◌++◌, arith,
}
use catalogger.Discord.{Discord, same_id}
use catalogger.Store.Redis.{shown, guild_member_key, invites_key}

-- two tests with the same meaning have the same answer
pub same_test :
    {A B : Type 0} ⦃e : Eq A⦄ ⦃f : Eq B⦄ (a b : A) (c d : B)
    → (a ≡ b → c ≡ d)
    → (c ≡ d → a ≡ b)
    → (a == b) ≡ (c == d)
same_test ⦃e⦄ ⦃f⦄ a b c d to from = elim (Bool-cases (a == b)) [
  | inl h ↦ h ∙ sym ((f.test_iff c d).1 (to ((e.test_iff a b).0 h)))
  | inr h ↦ elim (Bool-cases (c == d)) [
    | inr k ↦ h ∙ sym k
    | inl k ↦ absurd (ground (arith, (e.test_iff a b).1 (from ((f.test_iff c d).0 k))))
  ]
]

module _ (d : Discord) where
  same_id-show : (i j : ℕ) → same_id d i j ≡ true → d.show i ≡ d.show j
  same_id-show i j h = elim (Bool-cases (i == j)) [
    | inl e ↦ ap (λ k. d.show k) ((nat_eq.test_iff i j).0 e)
    | inr e ↦
        let (v, v') = neither (i == j) (d.is_valid i) (d.is_valid j) h e in
        d.show_invalid i v ∙ sym (d.show_invalid j v')
  ]
    where
      neither :
          (e a b : Bool) → (e || (not a && not b)) ≡ true → e ≡ false → (a ≡ false) × (b ≡ false)
      neither e a b x y = ground arith

  show-same_id : (i j : ℕ) → d.show i ≡ d.show j → same_id d i j ≡ true
  show-same_id i j h = elim (Bool-cases (d.is_valid i)) [
    | inl v ↦ elim (Bool-cases (d.is_valid j)) [
      | inl v' ↦ either _ _ _ ((nat_eq.test_iff i j).1 (d.show_injective i j v v' h))
      | inr v' ↦ absurd (d.show_valid i v (h ∙ d.show_invalid j v'))
    ]
    | inr v ↦ elim (Bool-cases (d.is_valid j)) [
      | inl v' ↦ absurd (d.show_valid j v' (sym h ∙ d.show_invalid i v))
      | inr v' ↦ last (i == j) (d.is_valid i) (d.is_valid j) v v'
    ]
  ]
    where
      either : (e a b : Bool) → e ≡ true → (e || (not a && not b)) ≡ true
      either e a b x = ground arith

      last : (e a b : Bool) → a ≡ false → b ≡ false → (e || (not a && not b)) ≡ true
      last e a b x y = ground arith

  pub shown_test : (i j : ℕ) → (shown d i == shown d j) ≡ same_id d i j
  shown_test i j = elim (Bool-cases (shown d i == shown d j)) [
    | inl h ↦ h ∙ sym (show-same_id i j (bytes-injective _ _ ((text_eq_instance.test_iff _ _).0 h)))
    | inr h ↦ elim (Bool-cases (same_id d i j)) [
      | inr k ↦ h ∙ sym k
      | inl k ↦ absurd (
          differ _ h
            ((text_eq_instance.test_iff (shown d i) (shown d j)).1 (ap bytes (same_id-show i j k))))
    ]
  ]
    where
      differ : (b : Bool) → b ≡ false → b ≡ true → ⊥
      differ b x y = ground arith

  pub guild_member_key_test :
      (i j : ℕ) → (guild_member_key d i == guild_member_key d j) ≡ same_id d i j
  guild_member_key_test i j =
      same_test (guild_member_key d i) (guild_member_key d j) (shown d i) (shown d j)
        (λ h. ap (drop 13) h) (λ h. ap (λ t. bytes "guildMembers:" ++ t) h)
      ∙ shown_test i j

  pub invites_key_test : (i j : ℕ) → (invites_key d i == invites_key d j) ≡ same_id d i j
  invites_key_test i j =
      same_test (invites_key d i) (invites_key d j) (shown d i) (shown d j) (λ h. ap (drop 13) h)
        (λ h. ap (λ t. bytes "guildInvites:" ++ t) h)
      ∙ shown_test i j
