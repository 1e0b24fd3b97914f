-- ===== src/Bot/Messages/Coverage.antt =====
-- Every text in every language.
use ludora.Common.{
  Option-cases, sym, ap, subst, ◌∙◌, is_none, not, Bool, true, false, ◌&&◌, ◌≡◌, refl, List, [],
  ◌∷◌, Option, none, some, Text, codes, ◌=ᵗ◌, =ᵗ→≡, all, null, arith, inl, inr, Bool-cases,
}
use ludora.Bot.Outcome.{
  ApiError, backend_unavailable, backend_timeout, invalid_response, product_not_found,
  resource_not_found, validation_failed, conflict, permission_denied, unexpected_api_status,
  authentication_failed, authentication_required, missing_telegram_user, value_error,
}
use ludora.Bot.Messages.Table.{
  lookup, names_of, is_template, have, or_else, format_template, format_from-cases,
}
use ludora.Bot.Messages.English.{english}
use ludora.Bot.Messages.Russian.{russian}
use ludora.Bot.Messages.{
  Language, en, ru, table, resolve_language, format_or_key, error_key, translate,
}

abbrev same_names : List Text → List Text → Bool
same_names [] [] = true
same_names (x ∷ xs) (y ∷ ys) = x =ᵗ y && same_names xs ys
same_names _ _ = false

same_names→≡ : (xs ys : List Text) → same_names xs ys ≡ true → xs ≡ ys
same_names→≡ [] [] h = refl
same_names→≡ [] (y ∷ ys) h = cc
same_names→≡ (x ∷ xs) [] h = cc
same_names→≡ (x ∷ xs) (y ∷ ys) h = ground (arith, h, =ᵗ→≡ x y, same_names→≡ xs ys)

-- A template in place of another: well formed, not empty, with the same names in its braces.
abbrev stands_for : Text → Option Text → Bool
stands_for template none = false
stands_for template (some other) =
    not (null other) && is_template none other && same_names (names_of template) (names_of other)

-- Every row of one table has its text in the other.
abbrev covers : List (Text × Text) → List (Text × Text) → Bool
covers other rows = all (λ r. stands_for r.1 (lookup r.0 other)) rows

covers-english : covers english english ≡ true
unfolding english
covers-english = refl

covers-russian : covers russian english ≡ true
unfolding english russian
covers-russian = refl

record Stands (template other : Text) : Type 0 where
  filled : null other ≡ false
  formed : is_template none other ≡ true
  names : names_of template ≡ names_of other

all_three : (a b c : Bool) → (not a && b && c) ≡ true → (a ≡ false) × (b ≡ true) × (c ≡ true)
all_three true b c h = absurd cc
all_three false true true h = (refl, refl, refl)
all_three false true false h = absurd cc
all_three false false c h = absurd cc

both : (a b : Bool) → (a && b) ≡ true → (a ≡ true) × (b ≡ true)
both true true h = (refl, refl)
both true false h = absurd cc
both false b h = absurd cc

stands_for-Stands :
    (template : Text) (found : Option Text)
    → stands_for template found ≡ true
    → (other : Text) × (found ≡ some other) × Stands template other
stands_for-Stands template none h = absurd cc
stands_for-Stands template (some other) h =
    let (filled, formed, same) =
      all_three (null other) (is_template none other)
        (same_names (names_of template) (names_of other)) h in
    (
      other,
      refl,
      record {
        filled = filled;
        formed = formed;
        names = same_names→≡ (names_of template) (names_of other) same;
      },
    )

lookup-here :
    (name key value : Text) (rows : List (Text × Text))
    → (name =ᵗ key) ≡ true
    → lookup key ((name, value) ∷ rows) ≡ some value
lookup-here name key value rows same = rw same refl

covered :
    (other rows : List (Text × Text)) (key template : Text)
    → covers other rows ≡ true
    → lookup key rows ≡ some template
    → (text : Text) × (lookup key other ≡ some text) × Stands template text
covered other [] key template h found = absurd cc
covered other ((name, value) ∷ rows) key template h found =
    let (row, rest) = both (stands_for value (lookup name other)) (covers other rows) h in
    elim (Bool-cases (name =ᵗ key)) [
      | inl same ↦
          let first : some value ≡ some template =
            sym (lookup-here name key value rows same) ∙ found in
          let is : value ≡ template = cc in
          stands_for-Stands template (lookup key other) (
            subst (λ (n : Text). stands_for template (lookup n other) ≡ true) (=ᵗ→≡ name key same)
              (subst (λ (t : Text). stands_for t (lookup name other) ≡ true) is row))
      | inr different ↦ covered other rows key template rest (ground (arith, found, different))
    ]

covered_in :
    (language : Language) (key template : Text)
    → lookup key english ≡ some template
    → (text : Text) × (lookup key (table language) ≡ some text) × Stands template text
unfolding table
covered_in en key template found = covered english english key template covers-english found
covered_in ru key template found = covered russian english key template covers-russian found

-- A text in the language, with the values in the place of its names.
pub record IsText (key : Text) (language : Language) (values : List (Text × Text)) (shown : Text)
    : Type 0 where
  pub template : Text
  pub own : lookup key (table language) ≡ some template
  pub formats : format_template values template ≡ some shown

format_or_key-formatted :
    (key template shown : Text) (values : List (Text × Text))
    → format_template values template ≡ some shown
    → format_or_key key values (some template) ≡ shown
format_or_key-formatted key template shown values formats = rw (formats, format_or_key) refl

shown_of :
    (key text : Text) (language : Language) (values : List (Text × Text)) (second : Option Text)
    → lookup key (table language) ≡ some text
    → null text ≡ false
    → is_none (format_template values text) ≡ false
    → IsText key language values (format_or_key key values (or_else (some text) second))
shown_of key [] language values second own filled formatted = absurd cc
shown_of key (c ∷ cs) language values second own filled formatted =
    elim (Option-cases (format_template values (c ∷ cs))) [
      | inl refused ↦ absurd (
          let clash : true ≡ false =
            sym (ap (λ (o : Option Text). is_none o) refused) ∙ formatted in
          cc)
      | inr (shown, formats) ↦ record {
        template = c ∷ cs;
        own = own;
        formats =
            formats
            ∙ ap (λ (t : Text). some t)
                (sym (format_or_key-formatted key (c ∷ cs) shown values formats));
      }
    ]

-- Every key of the English texts is translated into the text of the user's own language, whatever
-- its code, with all its values in their places, where the values have the names that the English
-- text asks for.
pub translate-IsText :
    (key template language : Text) (values : List (Text × Text))
    → lookup key english ≡ some template
    → have values (names_of template) ≡ true
    → IsText key
        (resolve_language (some language) (codes "en"))
        values
        (translate key language values)
unfolding translate
translate-IsText key template language values found given =
    let own : Language = resolve_language (some language) (codes "en") in
    let (text, is, stands) = covered_in own key template found in
    rw is (
      shown_of key text own values (lookup key (table en)) is stands.filled
        (format_from-cases values none text stands.formed (rw (sym stands.names) given)))

abbrev english_of : Text → Text
unfolding english
english_of key = elim (lookup key english) [ none ↦ [] | some template ↦ template ]

-- The English text of an error, which asks for no values.
error_found :
    (e : ApiError)
    → (template : Text) × (lookup (error_key e) english ≡ some template) × (names_of template ≡ [])
unfolding english
error_found backend_unavailable = (english_of (error_key backend_unavailable), refl, refl)
error_found backend_timeout = (english_of (error_key backend_timeout), refl, refl)
error_found invalid_response = (english_of (error_key invalid_response), refl, refl)
error_found product_not_found = (english_of (error_key product_not_found), refl, refl)
error_found resource_not_found = (english_of (error_key resource_not_found), refl, refl)
error_found validation_failed = (english_of (error_key validation_failed), refl, refl)
error_found conflict = (english_of (error_key conflict), refl, refl)
error_found permission_denied = (english_of (error_key permission_denied), refl, refl)
error_found (unexpected_api_status n) =
    (english_of (error_key (unexpected_api_status n)), refl, refl)
error_found authentication_failed = (english_of (error_key authentication_failed), refl, refl)
error_found authentication_required = (english_of (error_key authentication_required), refl, refl)
error_found missing_telegram_user = (english_of (error_key missing_telegram_user), refl, refl)
error_found value_error = (english_of (error_key value_error), refl, refl)

-- Every failed call is shown to the user as the text of its error in the user's own language,
-- whatever the language's code.
pub error_key-IsText :
    (e : ApiError) (language : Text)
    → IsText
        (error_key e)
        (resolve_language (some language) (codes "en"))
        []
        (translate (error_key e) language [])
error_key-IsText e language =
    let (template, found, nameless) = error_found e in
    translate-IsText (error_key e) template language [] found (rw nameless refl)
