-- ===== src/Discord/Sample.antt =====
-- A value of `Discord` with the numbers that the library uses, for the tests: the facts asked of it
-- can be met. Valid identifiers are shown in units, which is injective too.
use catalogger.Base.{
  nat_beq, if◌then◌else◌, ℕ, zero, suc, String, ◌≡◌, refl, sym, ap, ◌∙◌, ◌≢◌, Bool, true, false,
  not, ◌&&◌, arith,
}
use catalogger.Discord.{Discord}

abbrev pub valid : ℕ → Bool
valid i = not (nat_beq i 0) && not (nat_beq i 18446744073709551615)

abbrev pub units : ℕ → String
units zero = String.[]
units (suc n) = String.◌∷◌ "x" (units n)

abbrev size : String → ℕ
size String.[] = 0
size (String.◌∷◌ c s) = suc (size s)

size-units : (n : ℕ) → size (units n) ≡ n
size-units zero = refl
size-units (suc n) = ap suc (size-units n)

units_injective : (a b : ℕ) → units a ≡ units b → a ≡ b
units_injective a b h = sym (size-units a) ∙ ap size h ∙ size-units b

-- the digits are units here
abbrev pub shows : ℕ → String
shows i = if valid i then units i else ""

units_nonempty : (a : ℕ) → valid a ≡ true → units a ≢ ""
units_nonempty zero v h = absurd (false_true v)
  where
    false_true : false ≡ true → ⊥
    false_true e = ground arith
units_nonempty (suc n) v h = absurd (nonzero (ap size h))
  where
    nonzero : (suc (size (units n))) ≡ 0 → ⊥
    nonzero e = omega arith

pub shows_nonempty : (a : ℕ) → valid a ≡ true → shows a ≢ ""
shows_nonempty a v h = units_nonempty a v (sym (ap (λ b. if b then units a else "") v) ∙ h)

pub shows_injective : (a b : ℕ) → valid a ≡ true → valid b ≡ true → shows a ≡ shows b → a ≡ b
shows_injective a b v v' h =
    units_injective a b
      (sym (ap (λ c. if c then units a else "") v) ∙ h ∙ ap (λ c. if c then units b else "") v')

abbrev pub sample : Discord
sample = record {
  is_valid = valid;
  null_id = 18446744073709551615;
  null_invalid = refl;
  zero_invalid = refl;
  show = shows;
  show_invalid = λ a v. ap (λ c. if c then units a else "") v;
  show_valid = shows_nonempty;
  show_injective = shows_injective;
  guild_text = 0;
  guild_voice = 2;
  guild_category = 4;
  guild_announcement = 5;
  guild_announcement_thread = 10;
  guild_news_thread = 10;
  guild_public_thread = 11;
  guild_private_thread = 12;
}
