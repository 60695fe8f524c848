-- ===== src/Base/Text.antt =====
-- Texts as the program walks them: the conversions between texts and integers that JavaScript's
-- BigInt and its `toString` make.
mod Decimal
mod Hex
mod Contracts
mod Digits
unfoldable pub use Decimal.*
unfoldable pub use Hex.*
unfoldable pub use Contracts.*
unfoldable pub use Digits.*
use Prim.Native.String.{String}
use mathlib.Core.Path.{◌≡◌}
use mathlib.Core.Logic.{◌≢◌}
use mathlib.Core.Bool.{false}
use native.Mathlib.Omega.{arith}
use text.Mathlib.Text.{◌==◌}
use text.Mathlib.TextEquality.{eq_iff}

pub eq-false_of_ne : (s t : String) → s ≢ t → (s == t) ≡ false
eq-false_of_ne s t h = ground (arith, eq_iff s t)
