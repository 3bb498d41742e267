-- ===== src/Topics.antt =====
-- The names of topics (system/common_src/Topics.cpp). `default_scope_name` is a global of the
-- source, which Config::SetSessionId writes; here it is the first argument.
use Prim.Native.String.{String, ◌++◌}
use mathlib.Core.Path.{◌≡◌, refl, sym, ◌∙◌}
use mathlib.Core.Logic.{◌≢◌}
use mathlib.Core.Bool.{false}
use text.Mathlib.Text.{◌==◌}
use text.Mathlib.TextEquality.{eq_iff}
use text.Mathlib.TextLemmas.{append-nil, append_cancel_left, append_cancel_right, append_assoc}
use celte_system.Prelude.Texts.{endings_differ}

abbrev pub initial_scope : String
initial_scope = "non-persistent://public/default/"

unfoldable pub rpc : String → String → String
rpc default_scope_name str = (default_scope_name ++ str) ++ ".rpc"

unfoldable pub peer : String → String → String
peer default_scope_name str = default_scope_name ++ str

unfoldable pub input : String → String → String
input default_scope_name str = (default_scope_name ++ str) ++ ".input"

unfoldable pub repl : String → String → String
repl default_scope_name str = (default_scope_name ++ str) ++ ".repl"

unfoldable hello_master_sn : String → String
hello_master_sn default_scope_name = default_scope_name ++ "master.hello.sn"

unfoldable hello_master_cl : String → String
hello_master_cl default_scope_name = default_scope_name ++ "master.hello.client"

abbrev global_clock : String
global_clock = "persistent://public/default/global.clock"

unfoldable pub global_rpc : String → String
global_rpc default_scope_name = default_scope_name ++ "global.rpc"

unfoldable hello_client : String → String
hello_client default_scope_name = default_scope_name ++ "client.hello"

literals_differ : (s t : String) → (s == t) ≡ false → s ≢ t
literals_differ s t h e = cc ((eq_iff s t).1 e)

-- The topic on which the owner of an id is called is not the one on which all peers are.
pub peer-ne-rpc : (d a : String) → peer d a ≢ rpc d a
unfolding peer rpc
peer-ne-rpc d a e =
    literals_differ "" ".rpc" refl (append_cancel_left (d ++ a) "" ".rpc" (append-nil (d ++ a) ∙ e))

-- In one session the topics of two ids are the same only if the ids are, for each kind of topic,
-- and no rpc topic is a topic for inputs or for replication, whatever the ids.
pub topic-Injective :
    (d a b : String)
    → (peer d a ≡ peer d b → a ≡ b)
      × (rpc d a ≡ rpc d b → a ≡ b)
      × (input d a ≡ input d b → a ≡ b)
      × (repl d a ≡ repl d b → a ≡ b)
      × (rpc d a ≢ input d b)
      × (rpc d a ≢ repl d b)
      × (input d a ≢ repl d b)
unfolding peer rpc input repl
topic-Injective d a b = (
  append_cancel_left d a b,
  λ e. append_cancel_left d a b (append_cancel_right (d ++ a) (d ++ b) ".rpc" e),
  λ e. append_cancel_left d a b (append_cancel_right (d ++ a) (d ++ b) ".input" e),
  λ e. append_cancel_left d a b (append_cancel_right (d ++ a) (d ++ b) ".repl" e),
  λ e.
      endings_differ (d ++ a) ((d ++ b) ++ ".i") ".rpc" "nput" refl
        (literals_differ ".rpc" "nput" refl) (e ∙ sym (append_assoc (d ++ b) ".i" "nput")),
  λ e.
      endings_differ (d ++ a) ((d ++ b) ++ ".") ".rpc" "repl" refl
        (literals_differ ".rpc" "repl" refl) (e ∙ sym (append_assoc (d ++ b) "." "repl")),
  λ e.
      endings_differ ((d ++ a) ++ ".") (d ++ b) "input" ".repl" refl
        (literals_differ "input" ".repl" refl) (append_assoc (d ++ a) "." "input" ∙ e),
)
