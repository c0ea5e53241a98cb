-- ===== src/Tests/Gateway.antt =====
-- The theorems on the gateway, with the toy JWT library and the toy bcrypt.
use golang_gin.Prelude.{refl, true, none, some, List, [], ◌∷◌}
use golang_gin.Prelude.Int.{pos}
use golang_gin.Errors.{ok}
use golang_gin.Auth.{parse_access_token}
use golang_gin.Rpc.{CallEnv, through}
use golang_gin.User.Service.{World}
use golang_gin.Gateway.Auth.{Config, Answer}
use golang_gin.Gateway.Visits.{Visit, posts_refresh, posts_logout, posts_password, visit, visit_all}
use golang_gin.Gateway.Sessions.{
  IsTurnedAway, visit_refresh-IsTurnedAway, visit_logout-IsTurnedAway,
}
use golang_gin.Gateway.Answers.{IsFormed, visit-IsFormed}
use golang_gin.Tests.Toys.{toy_deps, toy_jwt, issue, refresh, query, start}

abbrev toy_config : Config
toy_config = record {
  refresh_max_age_seconds = pos 100;
  domain = "";
  secure = true;
  role_name = λ r. "member";
}

-- The limiter allows one call more; a token is read at 5.
abbrev call_env : CallEnv
call_env = record {
  allow = λ key limit. ok 1;
  caller = "ip";
  tokens = λ token. parse_access_token toy_jwt "k" token 5;
  details_ok = true;
}

abbrev first_visit : Visit
first_visit = posts_refresh (ok true) through call_env refresh issue (some "r0")

abbrev after_visit : World × Answer
unfolding visit
after_visit = visit toy_deps toy_config first_visit start

-- A login and a refresh with the new token.
abbrev visits : List Visit
visits =
    posts_password (ok true) through call_env query (record issue { fresh = 5; random = ok "r2" })
      (some ("a@x", "secret12"))
    ∷ posts_refresh (ok true) through call_env refresh
        (record issue { fresh = 6; random = ok "r3" }) (some "r1")
    ∷ []

visit_refresh-IsTurnedAway_example :
    IsTurnedAway
      (visit_all toy_deps toy_config visits after_visit.0)
      (visit toy_deps toy_config first_visit (visit_all toy_deps toy_config visits after_visit.0))
unfolding visit
visit_refresh-IsTurnedAway_example =
    visit_refresh-IsTurnedAway toy_deps toy_config (ok true) (ok true) through through call_env
      call_env refresh refresh issue issue "r0" start after_visit.0 after_visit.1 refl refl visits

visit_logout-IsTurnedAway_example : IsTurnedAway start (
    visit toy_deps toy_config (posts_logout (ok true) through call_env none none (some "r0")) start)
visit_logout-IsTurnedAway_example =
    visit_logout-IsTurnedAway toy_deps toy_config (ok true) through call_env none none "r0" start
      refl

visit-IsFormed_example : IsFormed (visit toy_deps toy_config first_visit start).1
visit-IsFormed_example = visit-IsFormed toy_deps toy_config first_visit start
