-- ===== src/Prelude/Texts.antt =====
-- Texts that are put together.
use Prim.Native.String.{String, ◌++◌, count}
use mathlib.Core.Path.{◌≡◌, ap}
use mathlib.Core.Logic.{◌≢◌}
use native.Mathlib.Omega.{arith}
use text.Mathlib.TextLemmas.{append_inj, length-append}

-- Texts that end differently are different.
pub endings_differ : (s t u v : String) → count u ≡ count v → u ≢ v → (s ++ u) ≢ (t ++ v)
endings_differ s t u v same different e =
    different
      (append_inj e (omega (arith, length-append s u, length-append t v, ap count e, same))).1
