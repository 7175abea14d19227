-- ===== src/ReferenceData/Groups.antt =====
-- The grouping of options by their set (app/core/reference_data/service.py).
use adus_be.Prelude.{
  ◌≡◌, refl, sym, ap, ◌∙◌, Bool, true, false, Bool-cases, inl, inr, List, [], ◌∷◌, ◌++◌, String,
  str_eq, eq_iff, lookup, lookup-insert, filter, or_else, append_assoc, append_nil, if◌then◌else◌,
}
use adus_be.ReferenceData.{EnumOption}
use adus_be.ReferenceData.Service.{append_to, group_options}

abbrev pub of_set : String → List EnumOption → List EnumOption
of_set set_code = filter λ o. str_eq o.set_code set_code

lookup-append_to :
    (set_code : String) (o : EnumOption) (grouped : List (String × List EnumOption))
    → or_else (lookup set_code (append_to o.set_code o grouped)) []
      ≡ or_else (lookup set_code grouped) [] ++ of_set set_code (o ∷ [])
lookup-append_to set_code o grouped = elim (Bool-cases (str_eq o.set_code set_code)) [
  | inl same ↦
      rw (lookup-insert, same)
        (ap (λ code. or_else (lookup code grouped) [] ++ o ∷ [])
          ((eq_iff o.set_code set_code).0 same))
  | inr other ↦ rw (lookup-insert, other) (sym (append_nil (or_else (lookup set_code grouped) [])))
]

-- Under each set code stand the options of that set, all of them and in the order in which they were read.
pub group_options_lem :
    (set_code : String) (options : List EnumOption) (grouped : List (String × List EnumOption))
    → or_else (lookup set_code (group_options options grouped)) []
      ≡ or_else (lookup set_code grouped) [] ++ of_set set_code options
unfolding group_options
group_options_lem set_code [] grouped = sym (append_nil (or_else (lookup set_code grouped) []))
group_options_lem set_code (o ∷ options) grouped =
    group_options_lem set_code options (append_to o.set_code o grouped)
    ∙ ap (λ front. front ++ of_set set_code options) (lookup-append_to set_code o grouped)
    ∙ append_assoc (or_else (lookup set_code grouped) []) (of_set set_code (o ∷ []))
        (of_set set_code options)
    ∙ ap (λ own. or_else (lookup set_code grouped) [] ++ own) (joined (str_eq o.set_code set_code))
  where
    joined :
        (b : Bool)
        → (if b then o ∷ [] else []) ++ of_set set_code options
          ≡ (if b then o ∷ of_set set_code options else of_set set_code options)
    joined true = refl
    joined false = refl
