-- ===== src/Http/Request/Headers.antt =====
-- HTTP/HttpRequest.h: methods, and header values without the spaces around them.
use mathlib.Core.List.{reverse, reverse-cons, reverse-reverse, reverse-append}
use rabbit_server.Prelude.{
  sym, ℕ, ◌≡◌, refl, ap, ◌∙◌, true, false, inl, inr, [], ◌∷◌, ◌++◌, arith, if◌then◌else◌,
  Bool-cases, Bytes, equal, is_space,
}
use rabbit_server.Dict.{lookup-insert, IsSorted, insert-IsSorted}
use rabbit_server.Http.Request.{
  Method, invalid, HttpRequest, method_of, method_string, skip_spaces, trim, add_header, get_header,
}

-- `setMethod` on what `methodString` gives finds the same method, for the five known methods and for
-- none.
pub method_of-method_string : (m : Method) → method_of (method_string m) ≡ m
unfolding method_of method_string equal
method_of-method_string invalid = refl
method_of-method_string _ = refl

-- Text that neither begins nor ends with a space, as trimming leaves it.
abbrev StartsPlain : Bytes → Type 0
StartsPlain [] = Unit {0}
StartsPlain (c ∷ cs) = is_space c ≡ false

pub record IsTrimmed (s : Bytes) : Type 0 where
  pub starts_plain : StartsPlain s
  pub ends_plain : StartsPlain (reverse s)

abbrev pub AllSpaces : Bytes → Type 0
AllSpaces [] = Unit {0}
AllSpaces (c ∷ cs) = (is_space c ≡ true) × AllSpaces cs

skip_spaces-StartsPlain : (s : Bytes) → StartsPlain (skip_spaces s)
unfolding skip_spaces
skip_spaces-StartsPlain [] = tt
skip_spaces-StartsPlain (c ∷ cs) = ground (arith, skip_spaces-StartsPlain cs)

skip_spaces_plain : (s : Bytes) → StartsPlain s → skip_spaces s ≡ s
unfolding skip_spaces
skip_spaces_plain [] h = refl
skip_spaces_plain (c ∷ cs) h = rw h

skip_spaces-append : (s t : Bytes) → AllSpaces s → skip_spaces (s ++ t) ≡ skip_spaces t
unfolding skip_spaces
skip_spaces-append [] t h = refl
skip_spaces-append (c ∷ cs) t h = rw h.0 (skip_spaces-append cs t h.1)

AllSpaces-append : (s t : Bytes) → AllSpaces s → AllSpaces t → AllSpaces (s ++ t)
AllSpaces-append [] t h k = k
AllSpaces-append (c ∷ cs) t h k = (h.0, AllSpaces-append cs t h.1 k)

AllSpaces-reverse : (s : Bytes) → AllSpaces s → AllSpaces (reverse s)
AllSpaces-reverse [] h = tt
AllSpaces-reverse (c ∷ cs) h =
    rw (reverse-cons c cs)
      (AllSpaces-append (reverse cs) (c ∷ []) (AllSpaces-reverse cs h.1) (h.0, tt))

skip_spaces_all : (s : Bytes) → AllSpaces s → skip_spaces s ≡ []
unfolding skip_spaces
skip_spaces_all [] h = refl
skip_spaces_all (c ∷ cs) h = rw h.0 (skip_spaces_all cs h.1)

-- Spaces on both sides of a trimmed value are removed, and nothing else of it.
pub trim_padded :
    (before value behind : Bytes)
    → AllSpaces before
    → AllSpaces behind
    → IsTrimmed value
    → trim (before ++ (value ++ behind)) ≡ value
unfolding trim skip_spaces
trim_padded before [] behind hb he t =
    ap (λ s. reverse (skip_spaces (reverse s)))
      (skip_spaces-append before behind hb ∙ skip_spaces_all behind he)
trim_padded before (c ∷ cs) behind hb he t =
    rw
      (
        skip_spaces-append before ((c ∷ cs) ++ behind) hb,
        skip_spaces_plain ((c ∷ cs) ++ behind) t.starts_plain,
        reverse-append (c ∷ cs) behind,
        skip_spaces-append (reverse behind) (reverse (c ∷ cs)) (AllSpaces-reverse behind he),
        skip_spaces_plain (reverse (c ∷ cs)) t.ends_plain,
      )
      (reverse-reverse (c ∷ cs))

-- A byte that is no space stops the skipping.
skip_spaces_stops :
    (xs : Bytes) (c : ℕ)
    → is_space c ≡ false
    → (ys : Bytes) × (skip_spaces (xs ++ (c ∷ [])) ≡ ys ++ (c ∷ []))
unfolding skip_spaces
skip_spaces_stops [] c h = ([], rw h)
skip_spaces_stops (x ∷ xs) c h = elim (Bool-cases (is_space x)) [
  | inl space ↦ let (ys, e) = skip_spaces_stops xs c h in (ys, rw space e)
  | inr plain ↦ (x ∷ xs, rw plain)
]

StartsPlain-reverse : (u : Bytes) → StartsPlain u → StartsPlain (reverse (skip_spaces (reverse u)))
unfolding skip_spaces
StartsPlain-reverse [] h = tt
StartsPlain-reverse (c ∷ cs) h =
    let (ys, e) = skip_spaces_stops (reverse cs) c h in
    rw (reverse-cons c cs, e, reverse-append ys (c ∷ [])) h

skip_spaces-split :
    (s : Bytes) → (spaces : Bytes) × AllSpaces spaces × (spaces ++ skip_spaces s ≡ s)
unfolding skip_spaces
skip_spaces-split [] = ([], tt, refl)
skip_spaces-split (c ∷ cs) = elim (Bool-cases (is_space c)) [
  | inl space ↦
      let (spaces, h, e) = skip_spaces-split cs in (c ∷ spaces, (space, h), rw space (ap (◌∷◌ c) e))
  | inr plain ↦ ([], tt, rw plain refl)
]

-- A value and what was trimmed off it.
pub record Trimmed (s : Bytes) : Type 0 where
  pub before : Bytes
  pub behind : Bytes
  pub before_spaces : AllSpaces before
  pub behind_spaces : AllSpaces behind
  pub whole : before ++ (trim s ++ behind) ≡ s
  pub trimmed : IsTrimmed (trim s)

-- Trimming removes spaces on both sides of a value and nothing else, and what it leaves neither
-- begins nor ends with a space.
pub trim-Trimmed : (s : Bytes) → Trimmed s
unfolding trim
trim-Trimmed s =
    let (before, h, e) = skip_spaces-split s in
    let t = skip_spaces s in
    let (behind, k, f) = skip_spaces-split (reverse t) in
    record {
      before = before;
      behind = reverse behind;
      before_spaces = h;
      behind_spaces = AllSpaces-reverse behind k;
      whole =
          ap (◌++◌ before) (
            sym (reverse-append behind (skip_spaces (reverse t)))
            ∙ ap reverse f
            ∙ reverse-reverse t)
          ∙ e;
      trimmed = record {
        starts_plain = StartsPlain-reverse t (skip_spaces-StartsPlain s);
        ends_plain =
            rw (reverse-reverse (skip_spaces (reverse t))) (skip_spaces-StartsPlain (reverse t));
      };
    }

-- In a request whose headers stand in the order of their names, a stored header is what a later
-- `getHeader` finds, without the spaces around it, the other fields keep theirs, and the headers
-- stand in order again, each name once.
pub get_header-add_header :
    (field other value : Bytes) (r : HttpRequest)
    → IsSorted r.headers
    → (get_header other (add_header field value r)
        ≡ (if equal field other then trim value else get_header other r))
      × IsSorted (add_header field value r).headers
unfolding get_header add_header
get_header-add_header field other value r h = (
  ground (arith, lookup-insert field other (trim value) r.headers),
  insert-IsSorted field (trim value) r.headers h,
)
