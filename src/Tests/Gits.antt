-- ===== src/Tests/Gits.antt =====
-- Concrete inputs for the theorems on what is read from git.
use wowdoc.Base.{
  ℕ, zero, suc, ◌+◌, ◌≡◌, ◌<◌, refl, true, false, not, none, some, List, [], ◌∷◌, ◌++◌, map,
}
use wowdoc.Base.{codes, ok, text_eq, err, arith, inl}
use wowdoc.Strings.{is_space, to_lower, contains_text, contains_any}
use wowdoc.GitStore.Tree.{tree}
use wowdoc.GitStore.Tree.Listing.{Listed, IsListed, listing, blobs, tree-listing}
use wowdoc.GitStore.Blobs.{read_each}
use wowdoc.GitStore.Blobs.Responses.{
  Response, IsResponse, output_of, oids_of, opened, request, result_of, read_each-responses,
}
use wowdoc.GitStore.Errors.{retryable_git, permanent_marks}
use wowdoc.GitStore.Retry.{Attempt, retry_network, network_error}
use wowdoc.GitStore.Retry.Settled.{
  IsHopeful, waits_before, retry_network-settled, retryable_git-network_error,
}

abbrev file : Listed
file = record {
  mode = codes "100644";
  kind = codes "blob";
  oid = codes "ab";
  padding = 4;
  size = some 12;
  path = codes "a b.lua";
}

abbrev submodule : Listed
submodule = record {
  mode = codes "160000";
  kind = codes "commit";
  oid = codes "cd";
  padding = 6;
  size = none;
  path = codes "lib";
}

file-IsListed : IsListed file
unfolding is_space
file-IsListed = record {
  mode_word = (refl, (refl, (refl, (refl, (refl, (refl, tt))))));
  kind_word = (refl, (refl, (refl, (refl, tt))));
  oid_word = (refl, (refl, tt));
  mode_plain = (refl, (refl, (refl, (refl, (refl, (refl, tt))))));
  kind_plain = (refl, (refl, (refl, (refl, tt))));
  oid_plain = (refl, (refl, tt));
  path_plain = (refl, (refl, (refl, (refl, (refl, (refl, (refl, tt)))))));
  size_fits = omega arith;
}

submodule-IsListed : IsListed submodule
unfolding is_space
submodule-IsListed = record {
  mode_word = (refl, (refl, (refl, (refl, (refl, (refl, tt))))));
  kind_word = (refl, (refl, (refl, (refl, (refl, (refl, tt))))));
  oid_word = (refl, (refl, tt));
  mode_plain = (refl, (refl, (refl, (refl, (refl, (refl, tt))))));
  kind_plain = (refl, (refl, (refl, (refl, (refl, (refl, tt))))));
  oid_plain = (refl, (refl, tt));
  path_plain = (refl, (refl, (refl, tt)));
  size_fits = tt;
}

tree-listing_example : tree (listing (file ∷ submodule ∷ [])) ≡ blobs (file ∷ submodule ∷ [])
tree-listing_example =
    tree-listing (file ∷ submodule ∷ []) (file-IsListed, (submodule-IsListed, tt))

abbrev present : Response
present = record { oid = codes "ab"; content = some (codes "x\ny") }

abbrev absent : Response
absent = record { oid = codes "cd"; content = none }

present-IsResponse : IsResponse present
unfolding is_space
present-IsResponse = record { oid_word = (refl, (refl, tt)); fits = omega arith }

absent-IsResponse : IsResponse absent
unfolding is_space
absent-IsResponse = record { oid_word = (refl, (refl, tt)); fits = tt }

abbrev answers : List Response
answers = absent ∷ present ∷ []

read_each-responses_example :
    read_each (oids_of answers) (opened [] (output_of answers []) [])
    ≡ (map result_of answers, opened ([] ++ map request (oids_of answers)) [] [])
read_each-responses_example =
    read_each-responses answers [] [] [] (absent-IsResponse, (present-IsResponse, tt))

-- A first attempt that times out, then one that succeeds.
abbrev attempt_at : ℕ → Attempt
attempt_at zero = record {
  cancelled_before = none;
  outcome = err (codes "unused");
  cancelled_after = none;
  timed_out = false;
  cancelled_wait = none;
}
attempt_at (suc zero) = record {
  cancelled_before = none;
  outcome = err (codes "curl 28");
  cancelled_after = none;
  timed_out = true;
  cancelled_wait = none;
}
attempt_at (suc (suc n)) = record {
  cancelled_before = none;
  outcome = ok (codes "done");
  cancelled_after = none;
  timed_out = false;
  cancelled_wait = none;
}

first-IsHopeful : (i : ℕ) → i < 1 → IsHopeful (attempt_at (i + 1))
unfolding retryable_git contains_text to_lower text_eq
first-IsHopeful zero h = (refl, refl, refl, (codes "curl 28", refl, refl))
first-IsHopeful (suc i) h = absurd (omega arith)

retry_network-settled_example : retry_network attempt_at ≡ (ok (codes "done"), waits_before 2)
retry_network-settled_example =
    retry_network-settled attempt_at 1 (ok (codes "done")) (omega arith) first-IsHopeful
      (refl, inl (codes "done", refl, refl))

retryable_git-network_error_example :
    retryable_git (network_error (codes "exit status 128") (codes "fatal: no space left"))
    ≡ not (
        contains_any
          (to_lower (network_error (codes "exit status 128") (codes "fatal: no space left")))
          permanent_marks)
retryable_git-network_error_example =
    retryable_git-network_error (codes "exit status 128") (codes "fatal: no space left")
