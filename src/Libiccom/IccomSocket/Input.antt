-- ===== src/Libiccom/IccomSocket/Input.antt =====
-- The incoming message: what a program reads of it.
use iccom_utils.Base.{
  ℕ, zero, suc, ◌+◌, ◌≤◌, ◌≡◌, refl, ap, sym, arith, List, [], ◌∷◌, ◌++◌, true, none, leb, ltb,
  length, get_elem?, Bool-cases, inl, inr,
}
use iccom_utils.Int32
use iccom_utils.Socket.{max_message_size}
use iccom_utils.Libiccom.Message.{NlmsgFormat, nlmsg_length}
use iccom_utils.Libiccom.Message.RoundTrip.{message, length-message}
use iccom_utils.Libiccom.IccomSocket.{IccomSocket, input_size, input_at}

get_elem?-append :
    (xs ys : List ℕ) (i k : ℕ) → k ≡ i + length xs → get_elem? (xs ++ ys) k ≡ get_elem? ys i
get_elem?-append [] ys i k e = ap (λ m. get_elem? ys m) (omega arith)
get_elem?-append (x ∷ xs) ys i zero e = absurd (omega arith)
get_elem?-append (x ∷ xs) ys i (suc k) e = get_elem?-append xs ys i k (omega arith)

get_elem?-beyond : (xs : List ℕ) (i : ℕ) → length xs ≤ i → get_elem? xs i ≡ none
get_elem?-beyond [] i h = refl
get_elem?-beyond (x ∷ xs) zero h = absurd (omega arith)
get_elem?-beyond (x ∷ xs) (suc i) h = get_elem?-beyond xs i (omega arith)

-- The size of what a socket holds after it received a message.
input_size-message :
    (nl : NlmsgFormat) (r : IccomSocket) (content : List ℕ)
    → length content ≤ max_message_size
    → r.incoming_data ≡ message nl content
    → input_size nl r ≡ length content
unfolding input_size
input_size-message nl r content few e =
    let n : ℕ = length content in
    let low : nl.header_size ≤ 64 = nl.header_fits in
    let bare : nl.space 0 ≡ nl.header_size = omega (arith, nl.space_lem 0 (omega arith)) in
    let wide : leb (nl.space 0) (length (message nl content)) ≡ true =
      ground (arith, bare, length-message nl content) in
    let left : Int32.sub (nlmsg_length nl n) (nl.space 0) ≡ n = omega (arith, bare) in
    rw (e, wide, nl.nlmsg_len-header (nlmsg_length nl n) content (omega arith)) left

-- What it holds at each index.
pub input_lem :
    (nl : NlmsgFormat) (r : IccomSocket) (content : List ℕ)
    → length content ≤ max_message_size
    → r.incoming_data ≡ message nl content
    → (input_size nl r ≡ length content) × ((idx : ℕ) → input_at nl r idx ≡ get_elem? content idx)
unfolding input_at
input_lem nl r content few e =
    let n : ℕ = length content in
    let head : List ℕ = nl.header (nlmsg_length nl n) in
    let size : input_size nl r ≡ n = input_size-message nl r content few e in
    (
      size,
      λ idx. elim (Bool-cases (ltb idx n)) [
        | inl inside ↦
            rw (size, inside, e)
              (get_elem?-append head content idx (idx + nlmsg_length nl 0)
                (omega (arith, nl.length-header (nlmsg_length nl n))))
        | inr outside ↦ rw (size, outside) (sym (get_elem?-beyond content idx (ground arith)))
      ],
    )
