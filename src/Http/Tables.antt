-- ===== src/Http/Tables.antt =====
-- The maps between words and values in http/http_conn.h.
use conv_event.Base.{
  ℕ, ◌≡◌, refl, sym, ap, ◌≢◌, ◌∙◌, ◌↔◌, Bool, true, false, ◌&&◌, List, [], ◌∷◌, Option, none, some,
  arith, Bytes, ◌==◌, if◌then◌else◌, text_eq, text_eq→eq, lookup,
}
use conv_event.Http.Words.{
  HttpMethods, get, post, put, patch, delete, trace, head, options, connect, http_method_map,
  http_method_map_string_to_method,
}
use conv_event.Http.Status.{HttpStatus, value, reason}
use conv_event.Http.Status
use conv_event.Http.Headers.{HttpHeader, http_header_map}
use conv_event.Http.HeaderNames.{http_header_map_string_to_header}

-- Every entry of a map satisfies the test.
abbrev all_entries {ℓ} : {A : Type ℓ} → (Bytes → A → Bool) → List (Bytes × A) → Bool
all_entries p [] = true
all_entries p ((k, a) ∷ t) = p k a && all_entries p t

lookup-all_entries {ℓ} :
    {A : Type ℓ} (p : Bytes → A → Bool) (t : List (Bytes × A)) (k : Bytes) (a : A)
    → all_entries p t ≡ true
    → lookup k t ≡ some a
    → p k a ≡ true
unfolding lookup
lookup-all_entries p [] k a h e = ground arith
lookup-all_entries p ((l, b) ∷ t) k a h e =
    ground (arith, text_eq→eq k l, lookup-all_entries p t k a)

abbrev found_by : Option Bytes → Bytes → Bool
found_by none k = false
found_by (some l) k = text_eq l k

found_by→eq : (o : Option Bytes) (k : Bytes) → found_by o k ≡ true → o ≡ some k
found_by→eq none k h = ground arith
found_by→eq (some l) k h = ap (λ t. some t) (text_eq→eq l k h)

pub method_found :
    (m : HttpMethods) → lookup (http_method_map m) http_method_map_string_to_method ≡ some m
unfolding http_method_map_string_to_method http_method_map lookup text_eq
method_found get = refl
method_found post = refl
method_found put = refl
method_found patch = refl
method_found delete = refl
method_found trace = refl
method_found head = refl
method_found options = refl
method_found connect = refl

-- A text names a method in the map from texts exactly if it is what the map to texts gives for the
-- method.
pub method_names :
    (text : Bytes) (m : HttpMethods)
    → (lookup text http_method_map_string_to_method ≡ some m) ↔ (text ≡ http_method_map m)
unfolding http_method_map_string_to_method http_method_map lookup text_eq
method_names text m = (
  (λ e. sym (
      text_eq→eq (http_method_map m) text (
        lookup-all_entries (λ k a. text_eq (http_method_map a) k) http_method_map_string_to_method
          text m refl e))),
  (λ e. ap (λ t. lookup t http_method_map_string_to_method) e ∙ method_found m),
)

-- Every header that a text stands for is printed as that text.
pub header_names :
    (text : Bytes) (h : HttpHeader)
    → lookup text http_header_map_string_to_header ≡ some h
    → http_header_map h ≡ some text
unfolding http_header_map_string_to_header http_header_map lookup text_eq
header_names text h e = found_by→eq (http_header_map h) text (
    lookup-all_entries (λ k a. found_by (http_header_map a) k) http_header_map_string_to_header text
      h refl e)

abbrev code_at : Bytes → List (HttpStatus × Bytes) → ℕ
code_at text [] = 0
code_at text ((k, t) ∷ l) = if text_eq text t then value k else code_at text l

abbrev code_of : Option Bytes → ℕ
code_of none = 0
code_of (some text) = code_at text Status.http_status_map

code_of-reason : (s : HttpStatus) → code_of (reason s) ≡ value s
unfolding reason Status.http_status_map Status.at_status value text_eq
code_of-reason s = ground arith

at_status-cong :
    (s t : HttpStatus) (l : List (HttpStatus × Bytes))
    → value s ≡ value t
    → Status.at_status s l ≡ Status.at_status t l
unfolding Status.at_status
at_status-cong s t [] e = refl
at_status-cong s t ((k, text) ∷ l) e =
    ap (λ n. if value k == n then some text else Status.at_status s l) e
    ∙ ap (λ r. if value k == value t then some text else r) (at_status-cong s t l e)

reason-cong : (s t : HttpStatus) → value s ≡ value t → reason s ≡ reason t
unfolding reason
reason-cong s t e = at_status-cong s t Status.http_status_map e

not_zero : (s : HttpStatus) → value s ≢ 0
unfolding value
not_zero s e = absurd (ground arith)

-- Every status has a reason phrase, and two statuses have the same one exactly if they have the same
-- code.
pub reasons : (s t : HttpStatus) → (reason s ≢ none) × ((reason s ≡ reason t) ↔ (value s ≡ value t))
reasons s t = (
  (λ e. not_zero s (sym (code_of-reason s) ∙ ap code_of e)),
  ((λ e. sym (code_of-reason s) ∙ ap code_of e ∙ code_of-reason t), (λ e. reason-cong s t e)),
)
