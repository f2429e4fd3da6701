-- ===== src/Tests/Texts.antt =====
-- Values that are sanitized, and a body that is formatted: common/utils/sanitization.util.ts and
-- common/interceptors/response.interceptor.ts.
use stellar_insured_backend.Prelude.{false, if◌then◌else◌, refl, some, ◌≡◌}
use stellar_insured_backend.XdrDecoder.{
  array, bigint, codes, digits, int_text, member, object, string,
}
use stellar_insured_backend.Prelude.Int.{pos}
use stellar_insured_backend.Response.{
  Body, array, bigint, body, format_response, no_bodies, no_properties, object, property, string,
  strip, success_of, transform,
}
use stellar_insured_backend.Response.Plain.{IsPlain}
use stellar_insured_backend.Response.Marker.{IsUnmarked, format_response_lem}
use stellar_insured_backend.Sanitization.{
  Json, array, element, member, name_of, no_elements, no_members, object, proto, sanitize_object,
  sanitize_string, string,
}
use stellar_insured_backend.Sanitization.Clean.{IsClean, sanitize_object-IsClean}
use stellar_insured_backend.Sanitization.DangerousKeys.{dangerous_key_through, wrapped}

abbrev profile : Json
profile = object (
    member (codes "bio") (string (codes "a<b>c"))
      (member (codes "$where") (array (element (string (codes "x")) no_elements)) no_members))

-- The tag goes, and the member with a dollar sign.
profile_sanitized :
    sanitize_object 0 profile ≡ object (member (codes "bio") (string (codes "ac")) no_members)
unfolding sanitize_object sanitize_string
profile_sanitized = refl

sanitize_object-IsClean_example : IsClean 11 (sanitize_object 0 profile)
sanitize_object-IsClean_example = sanitize_object-IsClean profile

dangerous_key_through_example :
    (sanitize_object 0 (object (member (name_of proto) profile no_members)) ≡ object no_members)
    × (sanitize_object 0 (object (member (wrapped (codes "b") proto) profile no_members))
        ≡ object (
            if false
            then no_members
            else member (name_of proto) (sanitize_object 1 profile) no_members))
unfolding sanitize_object
dangerous_key_through_example = dangerous_key_through (codes "b") proto profile (refl, refl, refl)

-- A list of one deleted row.
abbrev answer : Body
answer = Body.array (
    body
      (Body.object (
        property (codes "id") (bigint (pos 5))
          (property (codes "deletedAt") Body.null no_properties)))
      no_bodies)

abbrev answer_serialized : Body
answer_serialized =
    Body.array
      (body (Body.object (property (codes "id") (Body.string (codes "5")) no_properties)) no_bodies)

format_response_lem_example :
    (format_response answer ≡ some (success_of answer_serialized))
    × IsPlain answer_serialized
    × (transform answer_serialized ≡ some answer_serialized)
    × IsUnmarked 11 answer_serialized
unfolding transform strip int_text digits
format_response_lem_example = format_response_lem answer answer_serialized refl refl refl
