-- ===== src/Platform/Problem.antt =====
-- internal/httpx/problem.go, unauthorized.go and health.go: the answers that are not a handler's own.
use kopiochi.Prelude.{
  ℕ, Bool, true, false, Option, none, some, List, [], ◌∷◌, ◌++◌, Text, codes, is_empty,
  if◌then◌else◌,
}

-- Problem
pub record Problem : Type 0 where
  pub kind : Text
  pub title : Text
  pub status : ℕ
  pub detail : Text
  pub instance_path : Text
  pub request_id : Text

-- Of a request: r.URL.Path, r.Method and chimw.GetReqID.
pub record Route : Type 0 where
  pub path : Text
  pub method : Text
  pub request_id : Text

-- What a handler writes: a body as JSON with its status, the status 204, or a problem with the headers
-- that it has besides its content type and nosniff.
pub data Response (A : Type 0) : Type 0 where
  json : ℕ → A → Response A
  no_content : Response A
  failed : List (Text × Text) → Problem → Response A

-- WriteProblem, after some headers were set.
abbrev pub problem_of : Route → ℕ → Text → Text → Text → Problem
problem_of r status kind title detail = record {
  kind = kind;
  title = title;
  status = status;
  detail = detail;
  instance_path = r.path;
  request_id = r.request_id;
}

abbrev pub write_problem : {A : Type 0} → Route → ℕ → Text → Text → Text → Response A
write_problem r status kind title detail = failed [] (problem_of r status kind title detail)

-- Unauthorized
abbrev pub unauthorized : {A : Type 0} → Route → Response A
unauthorized r = failed ((codes "WWW-Authenticate", codes "Bearer realm=\"api\"") ∷ []) (
    problem_of r 401 (codes "about:blank") (codes "Unauthorized") (codes "authentication required"))

-- NotFound
abbrev pub not_found : {A : Type 0} → Route → Response A
not_found r =
    write_problem r 404 (codes "not_found") (codes "Not Found")
      (codes "No route matches this path.")

-- probeMethods
abbrev pub probe_methods : List Text
probe_methods =
    codes "GET"
    ∷ codes "HEAD"
    ∷ codes "POST"
    ∷ codes "PUT"
    ∷ codes "PATCH"
    ∷ codes "DELETE"
    ∷ codes "CONNECT"
    ∷ codes "OPTIONS"
    ∷ codes "TRACE"
    ∷ []

-- allowedMethods, for the routing tree as a test of a method and a path.
unfoldable pub allowed_among : (Text → Text → Bool) → Text → List Text → List Text
allowed_among matches path [] = []
allowed_among matches path (m ∷ ms) =
    let rest = allowed_among matches path ms in if matches m path then m ∷ rest else rest

abbrev pub allowed_methods : Option (Text → Text → Bool) → Text → List Text
allowed_methods none path = []
allowed_methods (some matches) path = allowed_among matches path probe_methods

abbrev pub comma_list : List Text → Text
comma_list [] = []
comma_list (m ∷ []) = m
comma_list (m ∷ n ∷ ms) = m ++ (codes ", " ++ comma_list (n ∷ ms))

-- MethodNotAllowed
unfoldable pub method_not_allowed : {A : Type 0} → Option (Text → Text → Bool) → Route → Response A
unfolding allowed_among
method_not_allowed routes r =
    let allowed = allowed_methods routes r.path in
    let problem =
      problem_of r 405 (codes "method_not_allowed") (codes "Method Not Allowed")
        (codes "This path does not accept " ++ (r.method ++ codes ".")) in
    if is_empty allowed
    then failed [] problem
    else failed ((codes "Allow", comma_list allowed) ∷ []) problem

-- writeHealth: the state, without the version.
abbrev pub write_health : ℕ → Text → Response Text
write_health status state = json status state

-- healthzHandler
abbrev pub healthz : Response Text
healthz = write_health 200 (codes "ok")

-- readyzHandler: `draining` is what the function answers, if there is one, and `ping` whether the
-- database answers, if there is one.
unfoldable pub readyz : Option Bool → Option Bool → Response Text
readyz (some true) ping = write_health 503 (codes "draining")
readyz draining none = write_health 503 (codes "unavailable")
readyz draining (some false) = write_health 503 (codes "unavailable")
readyz draining (some true) = write_health 200 (codes "ok")
