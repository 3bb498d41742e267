-- ===== src/Net/Service.antt =====
-- The end of a network service: CelteService::__cleanup (system/common_src/CelteService.cpp), the close
-- of a ReaderStream and its message handler (system/include/ReaderStream.hpp,
-- system/common_src/ReaderStream.cpp), and WriterStream (system/include/WriterStream.hpp).
use celte_system.Prelude.{
  ℕ, zero, suc, ◌+◌, ◌-◌, ◌≡◌, refl, Bool, true, false, not, String, List, [], ◌∷◌, ◌++◌, Option,
  none, some, if◌then◌else◌, ◌==◌, ◌&&◌, ltb, arith, Option-cases, inl, inr,
}
use celte_system.Prelude.Assoc.{Assoc}

-- A std::shared_ptr to a counter: it is null, or it points to a counter with this value.
pub data Counter : Type 0 where
  null : Counter
  points_to : ℕ → Counter

-- The test `pointer > 0` compares the pointer with nullptr, and not the counter.
unfoldable pub is_above_null : Counter → Bool
is_above_null null = false
is_above_null (points_to n) = true

pub record ReaderStream : Type 0 where
  pub closed : Bool
  pub pending_messages : Counter
  pub paused : Bool
  -- Whether unsubscribeAsync was called.
  pub unsubscribed : Bool
  pub handled : List String

-- ReaderStream::ReaderStream
abbrev pub new_stream : ReaderStream
new_stream = record {
  closed = false;
  pending_messages = points_to 0;
  paused = false;
  unsubscribed = false;
  handled = [];
}

-- PendingRefCount: the counter while a message is handled and after it.
unfoldable pub raise : Counter → Counter
raise null = null
raise (points_to n) = points_to (n + 1)

unfoldable lower : Counter → Counter
lower null = null
lower (points_to n) = points_to (n - 1)

-- handleMessageDelegate from its start to the call of the handler, and its end.
unfoldable enter_message : ReaderStream → String → ReaderStream
enter_message s content =
    let counted = record s { pending_messages = raise s.pending_messages } in
    if s.closed
    then counted
    else if content == ""
    then counted
    else record counted { handled = s.handled ++ (content ∷ []) }

unfoldable leave_message : ReaderStream → ReaderStream
leave_message s = record s { pending_messages = lower s.pending_messages }

-- BlockUntilNoPending, on fuel, where `later n` is the counter after n sleeps: the result is the
-- number of sleeps, and `none` a loop that has not ended.
unfoldable pub block_until_no_pending : (fuel : ℕ) → (later : ℕ → Counter) → ℕ → Option ℕ
block_until_no_pending zero later n = if is_above_null (later n) then none else some n
block_until_no_pending (suc fuel) later n =
    let rest = block_until_no_pending fuel later (suc n) in
    if is_above_null (later n) then rest else some n

unfoldable pub value_of : Counter → ℕ
value_of null = 0
value_of (points_to n) = n

-- Close
unfoldable pub close : (fuel : ℕ) → (later : ℕ → Counter) → ReaderStream → Option ReaderStream
close fuel later s =
    let closing = record s { closed = true; paused = true } in
    if s.closed
    then some s
    else if ltb 0 (value_of s.pending_messages)
    then (elim (block_until_no_pending fuel later 0) [
      | none ↦ none
      | some n ↦ some (record closing { unsubscribed = true })
    ])
    else some (record closing { unsubscribed = true })

pub record CelteService : Type 0 where
  pub reader_streams : List ReaderStream
  pub writer_streams : Assoc ℕ

unfoldable pub close_all :
    (fuel : ℕ) → (later : ℕ → Counter) → List ReaderStream → Option (List ReaderStream)
close_all fuel later [] = some []
close_all fuel later (s ∷ ss) = elim (close fuel later s) [
  | none ↦ none
  | some s' ↦ elim (close_all fuel later ss) [ none ↦ none | some ss' ↦ some (s' ∷ ss') ]
]

unfoldable pub block_all : (fuel : ℕ) → (later : ℕ → Counter) → List ReaderStream → Option ℕ
block_all fuel later [] = some 0
block_all fuel later (s ∷ ss) = elim (block_until_no_pending fuel later 0) [
  | none ↦ none
  | some n ↦ block_all fuel later ss
]

-- __cleanup, on fuel, where `later` are the readings of the counter of each stream that is waited
-- for; `none` is a cleanup that has not ended.
unfoldable pub cleanup : (fuel : ℕ) → (later : ℕ → Counter) → CelteService → Option CelteService
cleanup fuel later service = elim (close_all fuel later service.reader_streams) [
  | none ↦ none
  | some closed ↦ elim (block_all fuel later closed) [
    | none ↦ none
    | some n ↦ some (record { reader_streams = []; writer_streams = [] })
  ]
]

block-endless :
    (fuel n : ℕ) (counter : ℕ → ℕ)
    → block_until_no_pending fuel (λ i. points_to (counter i)) n ≡ none
unfolding block_until_no_pending is_above_null
block-endless zero n counter = refl
block-endless (suc fuel) n counter = block-endless fuel (suc n) counter

block_all-endless :
    (fuel : ℕ) (counter : ℕ → ℕ) (s : ReaderStream) (ss : List ReaderStream)
    → block_all fuel (λ i. points_to (counter i)) (s ∷ ss) ≡ none
unfolding block_all
block_all-endless fuel counter s ss = rw (block-endless fuel 0 counter, block_all) refl

-- The cleanup of a service with a reader stream does not end, whatever its counters of pending
-- messages are, also where they are 0, so that the streams are never released.
pub cleanup-endless :
    (fuel : ℕ) (counter : ℕ → ℕ) (s : ReaderStream) (ss : List ReaderStream) (ws : Assoc ℕ)
    → cleanup fuel
        (λ i. points_to (counter i))
        (record { reader_streams = s ∷ ss; writer_streams = ws })
      ≡ none
unfolding cleanup close_all
cleanup-endless fuel counter s ss ws =
    let later : ℕ → Counter = λ i. points_to (counter i) in
    elim (Option-cases (close fuel later s)) [
      | inl e ↦ ground (arith, e)
      | inr (s', e) ↦ elim (Option-cases (close_all fuel later ss)) [
        | inl f ↦ ground (arith, e, f)
        | inr (ss', f) ↦ ground (arith, e, f, block_all-endless fuel counter s' ss')
      ]
    ]

-- A producer was created or not: the callback of WriterStream::Open. The result is whether the
-- stream is ready and whether the error handler is called.
unfoldable on_producer : (result_ok has_error_handler : Bool) → Bool × Bool
on_producer result_ok has_error_handler =
    if not result_ok && has_error_handler then (false, true) else (true, false)

-- WriterStream::Write: the message that is sent and the pending counter; `json` is none where the
-- request cannot be serialized.
unfoldable pub write : Option String → List String → Counter → List String × Counter
write none sent pending = (sent, pending)
write (some json) sent pending = (sent ++ (json ∷ []), raise pending)
