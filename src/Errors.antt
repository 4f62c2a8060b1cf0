-- ===== src/Errors.antt =====
-- What becomes of an exception that a handler throws: `catch` of
-- apps/api/src/common/observability/sentry.filter.ts, and what apps/web/lib/api.ts makes of the reply.
use ai_saas_multi_tenant.Base.{
  ℕ, ◌≡◌, refl, ◌≢◌, ◌⊎◌, inl, inr, Bool, true, false, Option, none, some, leb, ◌==◌,
}
use ai_saas_multi_tenant.Model.Action.{
  Exception, bad_request, unauthorized, forbidden, not_found, conflict, service_unavailable,
  record_missing, constraint_failed, plain_error,
}
use ai_saas_multi_tenant.Web.Client.{Response, api_error, answer}

-- `exception.getStatus()`, of an HttpException of @nestjs/common; the others are none.
unfoldable pub http_status : Exception → Option ℕ
http_status bad_request = some 400
http_status unauthorized = some 401
http_status forbidden = some 403
http_status not_found = some 404
http_status conflict = some 409
http_status service_unavailable = some 503
http_status record_missing = none
http_status constraint_failed = none
http_status plain_error = none

abbrev pub or_internal : Option ℕ → ℕ
or_internal none = 500
or_internal (some status) = status

-- The reply, and whether the exception goes to Sentry and the log. The body is a number, as for every response.
pub record Caught : Type 0 where
  pub response : Response
  pub captured : Bool

unfoldable pub catch : (Exception → ℕ) → Exception → Caught
catch body e = record {
  response = record { status = or_internal (http_status e); body = body e };
  captured = leb 500 (or_internal (http_status e));
}

-- The client gets an error with the status of the reply, whatever the body is; it is the status that makes it refresh
-- its access token exactly for `unauthorized`; and what is captured is exactly what is no exception of the client's
-- making: the errors that are no HttpException, and `service_unavailable`.
pub catch_lem :
    (body : Exception → ℕ) (e : Exception)
    → (answer (catch body e).response ≡ api_error (or_internal (http_status e)))
      × ((((catch body e).response.status == 401) ≡ true) × (e ≡ unauthorized)
          ⊎ (((catch body e).response.status == 401) ≡ false) × (e ≢ unauthorized))
      × ((((catch body e).captured ≡ true) × ((http_status e ≡ none) ⊎ (e ≡ service_unavailable)))
          ⊎ (((catch body e).captured ≡ false) × (leb (or_internal (http_status e)) 499 ≡ true)))
unfolding catch http_status answer
catch_lem body bad_request = (refl, inr (refl, λ h. cc), inr (refl, refl))
catch_lem body unauthorized = (refl, inl (refl, refl), inr (refl, refl))
catch_lem body forbidden = (refl, inr (refl, λ h. cc), inr (refl, refl))
catch_lem body not_found = (refl, inr (refl, λ h. cc), inr (refl, refl))
catch_lem body conflict = (refl, inr (refl, λ h. cc), inr (refl, refl))
catch_lem body service_unavailable = (refl, inr (refl, λ h. cc), inl (refl, inr refl))
catch_lem body record_missing = (refl, inr (refl, λ h. cc), inl (refl, inl refl))
catch_lem body constraint_failed = (refl, inr (refl, λ h. cc), inl (refl, inl refl))
catch_lem body plain_error = (refl, inr (refl, λ h. cc), inl (refl, inl refl))
