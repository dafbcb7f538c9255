-- ===== src/Http/Server/EndsBlank.antt =====
-- HTTP/HttpServer.cpp and net/Buffer.cpp: messages that end with an empty line.
use rabbit_server.Prelude.{
  ◌+◌, ◌-◌, ◌≡◌, ◌⊎◌, inl, inr, refl, ap, ap₂, sym, subst, ◌∙◌, true, false, List, [], ◌∷◌, ◌++◌,
  arith, Bytes, codes, equal_refl, length, take, drop, length-append, take-drop, drop-drop,
  drop-append_length, ok, append_assoc, ltb,
}
use rabbit_server.Buffer.Contents.{IsValid, length-contents}
use rabbit_server.Buffer.{Buffer, contents, readable_bytes}
use rabbit_server.Http.Context.Message.{Message, print, print_fields, field_line, request_line}
use rabbit_server.Http.Server.{ends_blank}

abbrev pub blank : Bytes
blank = codes "\r\n\r\n"

-- The bytes end with an empty line.
abbrev pub EndsBlank : Bytes → Type 0
EndsBlank s = (front : Bytes) × (s ≡ front ++ blank)

pub EndsBlank-append : (s t : Bytes) → EndsBlank t → EndsBlank (s ++ t)
EndsBlank-append s t (front, e) = (s ++ front, ap (◌++◌ s) e ∙ sym (append_assoc s front blank))

pub fields-EndsBlank :
    (fs : List (Bytes × Bytes)) (front : Bytes)
    → EndsBlank (front ++ (b'\r' ∷ b'\n' ∷ print_fields fs []))
fields-EndsBlank [] front = (front, refl)
fields-EndsBlank ((key, value) ∷ fs) front =
    EndsBlank-append front _ (fields-EndsBlank fs (b'\r' ∷ b'\n' ∷ field_line key value))

fields-EndsBlank_rest :
    (fs : List (Bytes × Bytes)) (rest : Bytes) → EndsBlank rest → EndsBlank (print_fields fs rest)
fields-EndsBlank_rest [] rest h = EndsBlank-append (b'\r' ∷ b'\n' ∷ []) rest h
fields-EndsBlank_rest ((key, value) ∷ fs) rest h =
    EndsBlank-append (field_line key value) _
      (EndsBlank-append (b'\r' ∷ b'\n' ∷ []) _ (fields-EndsBlank_rest fs rest h))

pub print-EndsBlank :
    (m : Message) (rest : Bytes) → (rest ≡ []) ⊎ EndsBlank rest → EndsBlank (print m rest)
print-EndsBlank m rest (inl e) =
    subst (λ r. EndsBlank (print m r)) (sym e) (fields-EndsBlank m.fields (request_line m))
print-EndsBlank m rest (inr h) =
    EndsBlank-append (request_line m) _
      (EndsBlank-append (b'\r' ∷ b'\n' ∷ []) _ (fields-EndsBlank_rest m.fields rest h))

-- The server looks at the end of what is readable.
pub ends_blank-contents : (b : Buffer) → IsValid b → EndsBlank (contents b) → ends_blank b ≡ ok true
unfolding ends_blank
ends_blank-contents b v (front, e) =
    let s = b.buffer.storage in
    let w = b.write_index in
    let long : readable_bytes b ≡ length front + 4 =
      omega (arith, length-contents b v, ap length e, length-append front blank) in
    let last : take 4 (drop (w - 4) s) ≡ blank =
      take-drop (w - 4) 4 s
      ∙ ap₂ (λ m n. drop m (take n s)) (omega (arith, long)) (omega (arith, long))
      ∙ sym (drop-drop b.read_index (length front) (take w s))
      ∙ ap (drop (length front)) e
      ∙ drop-append_length front blank in
    rw (short long, last, equal_refl blank)
  where
    short : readable_bytes b ≡ length front + 4 → ltb b.write_index 4 ≡ false
    short long = ground arith
