-- ===== src/Validator/Interceptor.antt =====
-- What the interceptor does with a request.
use mathlib.Core.List.Memᴰ
use stencil.Base.{String, List, [], ◌∷◌, Memᴰ, some, ◌≡◌, ◌≢◌, refl, ◌⊎◌, inl, inr, ◌↔◌}
use stencil.Base.Outcome.{Outcome, err}
use stencil.Base.Strings.{join}
use stencil.Base.Sprintf.{sprintf}
use stencil.Validator.{Message, validate_message, validate, unary_server_interceptor}
use stencil.Validator.Missing.{Missing, IsPlain, validate_message-names}

-- Of a request whose message fields are not lists, and whose required fields of bytes and of enums
-- are not lists, the interceptor calls the handler, and returns what it does, if no field is
-- missing; otherwise it returns an error with the names of exactly the missing fields.
pub interceptor_guards :
    {A : Type 0} (m : Message) (handler : Outcome String A)
    → IsPlain m
    → (((name : String) → Missing m name → ⊥)
        × (unary_server_interceptor (some m) handler ≡ some handler))
      ⊎ ((names : List String) × ((names ≢ [])
            × ((name : String) → Memᴰ name names ↔ Missing m name)
            × (unary_server_interceptor (some m) handler
                ≡ some (err (sprintf ("following fields are missing: " ∷ join names ", " ∷ []))))))
unfolding unary_server_interceptor validate
interceptor_guards {A} m handler plain =
    let (names, e, h) = validate_message-names m plain in go names e h
  where
    go :
        (names : List String)
        → validate_message m ≡ some names
        → ((name : String) → Memᴰ name names ↔ Missing m name)
        → (((name : String) → Missing m name → ⊥)
            × (unary_server_interceptor (some m) handler ≡ some handler))
          ⊎ ((names : List String) × ((names ≢ [])
                × ((name : String) → Memᴰ name names ↔ Missing m name)
                × (unary_server_interceptor (some m) handler
                    ≡ some
                        (err (sprintf ("following fields are missing: " ∷ join names ", " ∷ []))))))
    go [] e h = inl (
      λ name q. absurd (Memᴰ.not-nil ((h name).1 q)),
      rw (e, unary_server_interceptor, validate) refl,
    )
    go (f ∷ fs) e h =
        inr (f ∷ fs, (λ n. cc (n), h, rw (e, unary_server_interceptor, validate) refl))
