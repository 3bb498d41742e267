-- ===== src/Peer/Inputs/Laws.antt =====
-- What is kept of the inputs of an entity (system/common_src/CelteInputSystem.cpp).
use celte_system.Prelude.{
  ℕ, zero, suc, ◌-◌, ◌≤◌, ◌<◌, ◌≡◌, refl, sym, ap, ◌∙◌, subst, String, List, [], ◌∷◌, ◌++◌, none,
  some, length, length-append, eq_iff, arith, ltb, Bool-cases, inl, inr,
}
use mathlib.Core.List.{append_assoc, append-nil}
use celte_system.Prelude.Assoc
use celte_system.Prelude.Assoc.{Assoc, find-put}
use celte_system.Prelude.HashMap.{HashMap, Map, find, find-put as find-put_map}
use celte_system.Peer.Inputs.{
  DataInput, CircularBuffer, drop, newest, Inputs, push_input, handle_input, handle_inputs, kept,
  get_entity_circular_buf,
}

module _ {ℓ} {A : Type ℓ} where
  length-drop : (n : ℕ) (xs : List A) → length (drop n xs) ≡ length xs - n
  length-drop zero xs = omega arith
  length-drop (suc n) [] = omega arith
  length-drop (suc n) (x ∷ xs) = omega (arith, length-drop n xs)

  drop-append : (n : ℕ) (xs ys : List A) → n ≤ length xs → drop n (xs ++ ys) ≡ drop n xs ++ ys
  drop-append zero xs ys le = refl
  drop-append (suc n) [] ys le = absurd (omega (arith, le))
  drop-append (suc n) (x ∷ xs) ys le = drop-append n xs ys (omega (arith, le))

  drop-suc :
      (n : ℕ) (xs others : List A) (oldest : A)
      → drop n xs ≡ oldest ∷ others
      → drop (suc n) xs ≡ others
  drop-suc zero [] others oldest e = cc
  drop-suc zero (x ∷ xs) others oldest e = cc
  drop-suc (suc n) [] others oldest e = cc
  drop-suc (suc n) (x ∷ xs) others oldest e = drop-suc n xs others oldest e

  newest-short : (n : ℕ) (xs : List A) → length xs ≤ n → newest n xs ≡ xs
  newest-short n xs le = let e : length xs - n ≡ 0 = omega (arith, le) in ap (λ k. drop k xs) e

module _ {A : Type 0} ⦃ring : CircularBuffer A⦄ where
  push_back-free :
      (b : ring.Buffer) (a : A) (history : List A)
      → length history < ring.capacity b
      → ring.items b ≡ newest (ring.capacity b) history
      → ring.items (ring.push_back b a) ≡ newest (ring.capacity b) (history ++ (a ∷ []))
  push_back-free b a history room e =
      let whole = e ∙ newest-short (ring.capacity b) history (omega (arith, room)) in
      ring.items-push_back_free b a (omega (arith, room, ap length whole))
      ∙ ap (λ xs. xs ++ (a ∷ [])) whole
      ∙ sym (
          newest-short (ring.capacity b) (history ++ (a ∷ []))
            (omega (arith, room, length-append history (a ∷ []))))

  push_back-full :
      (b : ring.Buffer) (a : A) (history items : List A)
      → 0 < ring.capacity b
      → ring.capacity b ≤ length history
      → ring.items b ≡ items
      → items ≡ newest (ring.capacity b) history
      → ring.items (ring.push_back b a) ≡ newest (ring.capacity b) (history ++ (a ∷ []))
  push_back-full b a history [] pos full f e = absurd (
      omega (arith, pos, full, ap length e, length-drop (length history - ring.capacity b) history))
  push_back-full b a history (oldest ∷ others) pos full f e =
      let k = length history - ring.capacity b in
      let size = length-drop k history in
      let n : length (history ++ (a ∷ [])) - ring.capacity b ≡ suc k =
        omega (arith, full, length-append history (a ∷ [])) in
      ring.items-push_back_full b a oldest others f
        (omega (arith, full, size, ap length f, ap length e))
      ∙ ap (λ xs. xs ++ (a ∷ [])) (sym (drop-suc k history others oldest (sym e)))
      ∙ sym (drop-append (suc k) history (a ∷ []) (omega (arith, pos, full)))
      ∙ ap (λ m. drop m (history ++ (a ∷ []))) (sym n)

  -- A push onto a buffer with the newest of a history.
  items-push_back :
      (b : ring.Buffer) (a : A) (history : List A)
      → 0 < ring.capacity b
      → ring.items b ≡ newest (ring.capacity b) history
      → ring.items (ring.push_back b a) ≡ newest (ring.capacity b) (history ++ (a ∷ []))
  items-push_back b a history pos e = elim (Bool-cases (ltb (length history) (ring.capacity b))) [
    | inl room ↦ push_back-free b a history (ground (arith, room)) e
    | inr full ↦ push_back-full b a history (ring.items b) pos (ground (arith, full)) refl e
  ]

module _ ⦃h : HashMap⦄ ⦃ring : CircularBuffer DataInput⦄ where
  -- The entity is registered and its buffer for the name has the newest ten of the history.
  pub record Keeps (entities : Map Inputs) (uuid name : String) (history : List DataInput)
      : Type 0 where
    pub inputs : Inputs
    pub buffer : ring.Buffer
    pub registered : find entities uuid ≡ some inputs
    pub named : Assoc.find inputs name ≡ some buffer
    pub ten : ring.capacity buffer ≡ 10
    pub holds : ring.items buffer ≡ newest 10 history

  push-Keeps :
      (entities : Map Inputs) (uuid name : String) (inputs : Inputs) (buffer : ring.Buffer)
      (history : List DataInput) (i : DataInput)
      → find entities uuid ≡ some inputs
      → push_input inputs name i ≡ Assoc.put inputs name (ring.push_back buffer i)
      → ring.capacity buffer ≡ 10
      → ring.items buffer ≡ newest 10 history
      → Keeps
          (handle_input entities uuid name i.status i.timestamp i.x i.y)
          uuid
          name
          (history ++ (i ∷ []))
  unfolding handle_input
  push-Keeps entities uuid name inputs buffer history i r p ten holds =
      let pushed = ring.push_back buffer i in
      let c : ring.items buffer ≡ newest (ring.capacity buffer) history =
        holds ∙ ap (λ n. newest n history) (sym ten) in
      record {
        inputs = Assoc.put inputs name pushed;
        buffer = pushed;
        registered = ground (
          arith,
          r,
          p,
          find-put_map entities uuid uuid (push_input inputs name i),
          eq_iff uuid uuid,
        );
        named = ground (arith, find-put inputs name name pushed, eq_iff name name);
        ten = ring.capacity-push_back buffer i ∙ ten;
        holds =
            items-push_back buffer i history (omega (arith, ten)) c
            ∙ ap (λ n. newest n (history ++ (i ∷ []))) ten;
      }

  handle_inputs-Keeps :
      (is history : List DataInput) (entities : Map Inputs) (uuid name : String)
      → Keeps entities uuid name history
      → Keeps (handle_inputs entities uuid name is) uuid name (history ++ is)
  unfolding handle_inputs push_input
  handle_inputs-Keeps [] history entities uuid name k =
      subst (Keeps entities uuid name) (sym (append-nil history)) k
  handle_inputs-Keeps (i ∷ is) history entities uuid name k =
      let p : push_input k.inputs name i ≡ Assoc.put k.inputs name (ring.push_back k.buffer i) =
        rw (k.named, push_input) refl in
      let e = handle_input entities uuid name i.status i.timestamp i.x i.y in
      subst (Keeps (handle_inputs e uuid name is) uuid name) (append_assoc history (i ∷ []) is) (
        handle_inputs-Keeps is (history ++ (i ∷ [])) e uuid name
          (push-Keeps entities uuid name k.inputs k.buffer history i k.registered p k.ten k.holds))

  kept-Keeps :
      (entities : Map Inputs) (uuid name : String) (history : List DataInput)
      → Keeps entities uuid name history
      → kept entities uuid name ≡ newest 10 history
  unfolding kept get_entity_circular_buf
  kept-Keeps entities uuid name history k = ground (arith, k.registered, k.named) ∙ k.holds

  -- Of a name of which a registered entity has no input yet, the last ten inputs that were handled
  -- are kept, from the oldest to the newest, and so never more than ten.
  pub kept-handle_inputs :
      (entities : Map Inputs) (uuid name : String) (inputs : Inputs) (i : DataInput)
      (is : List DataInput)
      → find entities uuid ≡ some inputs
      → Assoc.find inputs name ≡ none
      → (kept (handle_inputs entities uuid name (i ∷ is)) uuid name ≡ newest 10 (i ∷ is))
        × (length (kept (handle_inputs entities uuid name (i ∷ is)) uuid name) ≤ 10)
  unfolding kept get_entity_circular_buf handle_inputs push_input
  kept-handle_inputs entities uuid name inputs i is r fresh =
      let e = handle_input entities uuid name i.status i.timestamp i.x i.y in
      let p : push_input inputs name i ≡ Assoc.put inputs name (ring.push_back (ring.make 10) i) =
        rw (fresh, push_input) refl in
      let k = handle_inputs-Keeps is (i ∷ []) e uuid name (
        push-Keeps entities uuid name inputs (ring.make 10) [] i r p (ring.capacity-make 10)
          (ring.items-make 10)) in
      let same : kept (handle_inputs entities uuid name (i ∷ is)) uuid name ≡ newest 10 (i ∷ is) =
        kept-Keeps (handle_inputs e uuid name is) uuid name (i ∷ is) k in
      (same, omega (arith, ap length same, length-drop (length (i ∷ is) - 10) (i ∷ is)))
