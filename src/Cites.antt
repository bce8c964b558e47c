-- ===== src/Cites.antt =====
-- crates/io/src/cite.rs and `LocatorType` of crates/csl/src/terms.rs: a cite of one reference, with
-- its locators. A reference's interned key is a number.
use Prim.Native.String.{String}
use text.Mathlib.Text.{◌==◌ as str_eq}
use citeproc_rs.Base.{
  ℕ, Bool, true, false, ◌&&◌, ◌||◌, List, [], ◌∷◌, Option, none, some, ◌==◌, ltb, is_some,
  if◌then◌else◌,
}
use citeproc_rs.Base.Int.{ℤ, pos, negsuc}

pub data LocatorType : Type 0 where
  book chapter column figure folio issue line note opus page paragraph part section : LocatorType
  sub_verbo verse volume article subparagraph rule subsection schedule title : LocatorType
  unpublished supplement : LocatorType

-- the place of a locator type in its declaration, by which the derived `==` compares
unfoldable pub discriminant : LocatorType → ℕ
discriminant book = 0
discriminant chapter = 1
discriminant column = 2
discriminant figure = 3
discriminant folio = 4
discriminant issue = 5
discriminant line = 6
discriminant note = 7
discriminant opus = 8
discriminant page = 9
discriminant paragraph = 10
discriminant part = 11
discriminant section = 12
discriminant sub_verbo = 13
discriminant verse = 14
discriminant volume = 15
discriminant article = 16
discriminant subparagraph = 17
discriminant rule = 18
discriminant subsection = 19
discriminant schedule = 20
discriminant title = 21
discriminant unpublished = 22
discriminant supplement = 23

pub data NumberLike : Type 0 where
  str : String → NumberLike
  num : ℕ → NumberLike

unfoldable pub same_number_like : NumberLike → NumberLike → Bool
same_number_like (str a) (str b) = str_eq a b
same_number_like (num a) (num b) = a == b
same_number_like _ _ = false

pub record Locator : Type 0 where
  pub locator : NumberLike
  pub loc_type : LocatorType

unfoldable pub same_locator : Locator → Locator → Bool
unfolding same_number_like discriminant
same_locator a b =
    same_number_like a.locator b.locator && discriminant a.loc_type == discriminant b.loc_type

pub data Locators : Type 0 where
  single : Locator → Locators
  multiple : List Locator → Locators

same_list : List Locator → List Locator → Bool
unfolding same_locator
same_list [] [] = true
same_list (a ∷ as') (b ∷ bs) = same_locator a b && same_list as' bs
same_list _ _ = false

-- the derived `PartialEq`
unfoldable pub same_locators : Locators → Locators → Bool
unfolding same_locator same_list
same_locators (single a) (single b) = same_locator a b
same_locators (multiple a) (multiple b) = same_list a b
same_locators _ _ = false

-- `Locators::single`
unfoldable pub single_of : Locators → Option Locator
single_of (single l) = some l
single_of (multiple []) = none
single_of (multiple (l ∷ _)) = some l

unfoldable pub into_option : Locators → Option Locators
into_option (multiple []) = none
into_option (multiple (l ∷ [])) = some (single l)
into_option (multiple ls) = some (multiple ls)
into_option l = some l

pub data CiteMode : Type 0 where
  author_only suppress_author : CiteMode

pub record Cite : Type 0 where
  pub ref_id : ℕ
  pub prefix : Option String
  pub suffix : Option String
  pub locators : Option Locators
  pub mode : Option CiteMode

-- `Cite::basic`
unfoldable pub basic : ℕ → Cite
basic r = record { ref_id = r; prefix = none; suffix = none; locators = none; mode = none }

unfoldable pub has_prefix : Cite → Bool
has_prefix c = is_some c.prefix

unfoldable pub has_suffix : Cite → Bool
has_suffix c = is_some c.suffix

unfoldable pub has_affix : Cite → Bool
unfolding has_prefix has_suffix
has_affix c = has_prefix c || has_suffix c

-- `Truthy`, a flag of the older JSON format
pub data Truthy : Type 0 where
  boolean : Bool → Truthy
  number : ℤ → Truthy

unfoldable pub is_truthy : Truthy → Bool
is_truthy (boolean b) = b
is_truthy (number (pos n)) = ltb 0 n
is_truthy (number (negsuc n)) = false

pub data ModeError : Type 0 where
  composite_unsupported both_flags : ModeError

pub data ModeResult : Type 0 where
  ok : Option CiteMode → ModeResult
  err : ModeError → ModeResult

-- `ModeFlags::to_mode`; the first argument is `composite.is_some()`
unfoldable pub to_mode : Bool → Truthy → Truthy → ModeResult
unfolding is_truthy
to_mode composite suppress author =
    if composite
    then err composite_unsupported
    else if is_truthy author && is_truthy suppress
    then err both_flags
    else if is_truthy author
    then ok (some author_only)
    else if is_truthy suppress
    then ok (some suppress_author)
    else ok none
