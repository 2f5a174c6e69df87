-- ===== src/Terminal/Menu.antt =====
-- The loop of `client_menu`.
use sist_distrib2c.Base.{
  ℕ, ◌<◌, ◌^◌, ◌≡◌, ◌↔◌, ◌⊎◌, refl, true, List, [], ◌∷◌, ◌++◌, none, some, All, arith, Bool-cases,
  inl, inr, ap, sym, ◌∙◌,
}
use mathlib.Core.Bool.{true≢false}
use sist_distrib2c.Terminal.Reading.{Line, strtol, is_offered, client_menu}

-- The options that the menu shows: two always, and two more when there are reservations.
abbrev pub IsShown : ℕ → ℕ → Type 0
IsShown count option =
    (option ≡ 1) ⊎ ((option ≡ 4) ⊎ ((0 < count) × (count < 2 ^ 31) × ((option ≡ 2) ⊎ (option ≡ 3))))

is_offered-IsShown : (count option : ℕ) → is_offered count option ≡ true ↔ IsShown count option
unfolding is_offered
is_offered-IsShown count option = ground arith

-- Some line has a shown option; the first such line stands behind lines that have none.
abbrev pub FirstShown : ℕ → List Line → List Line → Line → List Line → Type 0
FirstShown count lines before line after =
    (lines ≡ before ++ (line ∷ after))
    × All (λ l. ¬ IsShown count (strtol l)) before
    × IsShown count (strtol line)

-- The menu waits exactly while no line names an option that it shows; otherwise it returns the option of
-- the first line that does, and leaves the lines behind that one.
pub client_menu_lem :
    (count : ℕ) (lines : List Line)
    → (All (λ l. ¬ IsShown count (strtol l)) lines × (client_menu count lines ≡ none))
      ⊎ ((before after : List Line) × (line : Line) × FirstShown count lines before line after
          × (client_menu count lines ≡ some (strtol line, after)))
unfolding client_menu
client_menu_lem count [] = inl (tt, refl)
client_menu_lem count (line ∷ lines) = elim (Bool-cases (is_offered count (strtol line))) [
  | inl offered ↦ inr (
    [],
    lines,
    line,
    (refl, tt, (is_offered-IsShown count (strtol line)).0 offered),
    rw offered refl,
  )
  | inr other ↦
      let hidden : ¬ IsShown count (strtol line) =
        λ shown. true≢false (sym ((is_offered-IsShown count (strtol line)).1 shown) ∙ other) in
      elim (client_menu_lem count lines) [
        | inl (none_shown, waiting) ↦ inl ((hidden, none_shown), rw other waiting)
        | inr (before, after, first, (split, skipped, shown), chosen) ↦ inr (
          line ∷ before,
          after,
          first,
          (ap (◌∷◌ line) split, (hidden, skipped), shown),
          rw other chosen,
        )
      ]
]
