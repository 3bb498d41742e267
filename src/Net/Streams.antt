-- ===== src/Net/Streams.antt =====
-- The streams of a container: ReaderStream::Open (system/include/ReaderStream.hpp), _createReaderStream
-- (system/include/CelteService.hpp), and Container::__initStreams with WaitForNetworkReady
-- (system/common_src/Container.cpp). `clients` is the broker, as in Net/ReaderStream, for each topic.
pub mod Laws
use celte_system.Prelude.{
  ℕ, zero, suc, ◌+◌, ◌≤◌, ◌<◌, ◌≡◌, ◌≢◌, refl, sym, ap, ◌∙◌, Bool, true, false, not, String, List,
  [], ◌∷◌, ◌++◌, Option, none, some, leb, if◌then◌else◌, ◌==◌, ◌&&◌, arith, Option-cases,
  Bool-cases, inl, inr, is_some,
}
use celte_system.Prelude.Polling.{poll, poll-first, poll-never}
use celte_system.Topics
use celte_system.Net.ReaderStream.{Attempt, throws, subscribe, succeeds, subscribe-calm}

-- ReaderStream::Options, less the callbacks. The message handler is given by the topic.
pub record Options : Type 0 where
  pub topic : String
  pub subscription_name : String
  pub exclusive : Bool

-- How the task of Open ends: the stream is ready and onReady is called, or onConnectError is, or the
-- task throws.
pub data Opened : Type 0 where
  opened : Opened
  connect_error : Opened
  throws_deprecated : Opened

-- The name under which __subscribe subscribes; `uuid` is new.
unfoldable pub subscription : (uuid : String) → Options → String
subscription uuid o = if o.subscription_name == "" then uuid else o.subscription_name

-- The end of the task, from whether the loop has subscribed and after how many calls.
abbrev pub opened_by : Option (Bool × ℕ) → Option Opened
opened_by none = none
opened_by (some (subscribed, calls)) = some (if subscribed then opened else connect_error)

-- The task of Open: `none` is a task that does not end.
unfoldable pub open_stream : (client : ℕ → Attempt) → (fuel : ℕ) → Options → Option Opened
open_stream client fuel o =
    if o.exclusive then some throws_deprecated else opened_by (subscribe client fuel)

abbrev pub reader_options : (subscription_name topic : String) → Options
reader_options subscription_name topic = record {
  topic = topic;
  subscription_name = subscription_name;
  exclusive = false;
}

-- Container::__initStreams: the topic of the writer stream and the options of the reader streams.
unfoldable pub init_streams :
    (server : Bool) (default_scope uuid id : String)
    → (is_locally_owned : Bool) → Option String × List Options
init_streams server default_scope uuid id is_locally_owned =
    let reader = reader_options (Topics.peer default_scope uuid) in
    if server && is_locally_owned
    then (some (Topics.repl default_scope id), reader (Topics.input default_scope id) ∷ [])
    else (none, reader (Topics.repl default_scope id) ∷ reader (Topics.input default_scope id) ∷ [])

-- When Ready of a stream becomes true, in sleeps of the waiting task.
pub data Opening : Type 0 where
  ready_after : ℕ → Opening
  never_ready : Opening

unfoldable pub is_ready : Opening → ℕ → Bool
is_ready (ready_after t) n = leb t n
is_ready never_ready n = false

-- The test of WaitForNetworkReady after n sleeps.
unfoldable pub all_ready : List Opening → ℕ → Bool
all_ready [] n = true
all_ready (o ∷ os) n = is_ready o n && all_ready os n

-- The task of WaitForNetworkReady: it calls onReady after the sleeps, and `none` is out of fuel.
unfoldable pub wait_network_ready : (fuel : ℕ) → List Opening → Option ℕ
wait_network_ready fuel os = poll fuel (all_ready os) 0

-- A stream that Open makes ready is so when its task has run, after `delay` sleeps of the other.
unfoldable pub opening : Option Opened → (delay : ℕ) → Opening
opening (some opened) delay = ready_after delay
opening (some connect_error) delay = never_ready
opening (some throws_deprecated) delay = never_ready
opening none delay = never_ready

module _ (clients : String → ℕ → Attempt) (delay : String → ℕ) where
  -- The streams that are opened with these options, where ten calls of the broker may fail.
  unfoldable pub openings : List Options → List Opening
  openings [] = []
  openings (o ∷ os) = opening (open_stream (clients o.topic) 10 o) (delay o.topic) ∷ openings os
