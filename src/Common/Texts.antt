-- ===== src/Common/Texts.antt =====
-- Texts in the order of Python's `str`, sorted and joined.
use Prim.Native.Nat.{Ordering}
use Prim.Native.String.{String, ◌++◌, compare}
use mathlib.Core.Bool.{Bool, true, false}
use mathlib.Core.List.{List, [], ◌∷◌}
use auto_nav_log.Common.Tests.{if◌then◌else◌}

abbrev pub text_before : String → String → Bool
text_before a b = elim (compare a b) [ Ordering.lt ↦ true | _ ↦ false ]

abbrev pub insert_text : String → List String → List String
insert_text text [] = text ∷ []
insert_text text (other ∷ others) =
    if text_before other text then other ∷ insert_text text others else text ∷ other ∷ others

-- `sorted`
abbrev pub sort_texts : List String → List String
sort_texts [] = []
sort_texts (text ∷ texts) = insert_text text (sort_texts texts)

-- `separator.join`
abbrev pub join : String → List String → String
join separator [] = ""
join separator (text ∷ []) = text
join separator (text ∷ other ∷ others) = text ++ separator ++ join separator (other ∷ others)
