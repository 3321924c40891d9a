-- ===== src/Sharing/Tests.antt =====
-- Links over values in memory.
use realtime_collaborative_e.Base.{
  ℕ, String, ◌≡◌, refl, true, false, Option, none, some, [], ok, ◌===◌, arith,
}
use realtime_collaborative_e.Redis.Memory.{memory}
use realtime_collaborative_e.Access.{Directory, User, can_activate, rank, at_least, required_role}
use realtime_collaborative_e.Sharing.{Link, LinkBody, Checks, Headers, post_link, auth_guard}
use realtime_collaborative_e.Access.Laws.{owner_is_enough}
use realtime_collaborative_e.Sharing.Links.{post_link-opens}

-- Nobody may open anything.
abbrev closed : Directory
closed = record {
  find_by_id = λ id. some (record { owner_id = "ann"; workspace_id = "w" });
  find_perm = λ id user. none;
  find_role = λ ws user. none;
}

abbrev checks : Checks
checks = record {
  compare = λ p h. p === h;
  hash = λ p. p;
  user_of = λ token. none;
  to_lower_case = λ s. s;
}

abbrev eve : User
eve = record { id = "eve"; is_object = true; share = none }

abbrev wanted : LinkBody
wanted = record {
  document_id = some "doc";
  role = some "owner";
  expires_in_sec = 0;
  password = none;
  allow_anonymous_comment = false;
  allowed_domains_csv = none;
}

abbrev with_token : Headers
with_token = record {
  authorization = none;
  share_token_header = some "tok";
  share_token_query = none;
  share_pass_header = none;
  share_pass_query = none;
}

abbrev no_links : String → Option (Link × ℕ)
no_links k = none

owner_covers : at_least (rank "owner") (rank (required_role (some "owner"))) ≡ true
owner_covers = owner_is_enough

post_link-opens_example :
    (g : User) × ((post_link (memory Link) checks closed no_links 5 eve wanted "tok").1 ≡ ok "tok")
    × (auth_guard
          (memory Link)
          checks
          (post_link (memory Link) checks closed no_links 5 eve wanted "tok").0
          9
          with_token
        ≡ ok g)
    × (can_activate closed
          (some "owner")
          (record { user = some g; id_param = some "doc"; document_id_param = none })
        ≡ ([], ok tt))
post_link-opens_example =
    post_link-opens (memory Link) checks closed no_links 5 9 eve wanted "tok" "doc" (some "owner")
      with_token refl refl refl refl owner_covers refl refl (omega arith) (omega arith)
