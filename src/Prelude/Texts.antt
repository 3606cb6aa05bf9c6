-- ===== src/Prelude/Texts.antt =====
-- Native texts: equality as a test, and dictionaries with text keys.
use Prim.Native.String.{String}
use mathlib.Core.Bool.{Bool, not}
use mathlib.Core.Option.{Option, none, some}
use mathlib.Core.List.{List, [], ◌∷◌}
use text.Mathlib.Text.{◌==◌ as text_eq}
use callio.Prelude.Tests.{if◌then◌else◌}

-- `===` on two texts.
infix 50 ◌===◌
abbrev pub ◌===◌ : String → String → Bool
s === t = text_eq s t

-- A text is falsy exactly if it is empty.
abbrev pub is_truthy : String → Bool
is_truthy s = not (s === "")

-- A `Map` with text keys: its entries in insertion order.
unfoldable pub lookup {ℓ} : {V : Type ℓ} → String → List (String × V) → Option V
lookup key [] = none
lookup key (entry ∷ rest) = if entry.0 === key then some entry.1 else lookup key rest

-- `Map.set`: an old key keeps its place.
unfoldable pub insert {ℓ} : {V : Type ℓ} → String → V → List (String × V) → List (String × V)
insert key value [] = (key, value) ∷ []
insert key value (entry ∷ rest) =
    if entry.0 === key then (entry.0, value) ∷ rest else entry ∷ insert key value rest
