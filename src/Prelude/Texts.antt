-- ===== src/Prelude/Texts.antt =====
-- Joining texts.
use Prim.Native.String.{String, ◌++◌ as str_append}
use mathlib.Core.Path.{◌≡◌}
use text.Mathlib.TextLemmas.{append-nil}

-- s + t
unfoldable pub concat : String → String → String
concat s t = str_append s t

pub concat-nil : (s : String) → concat s "" ≡ s
unfolding concat
concat-nil s = append-nil s
