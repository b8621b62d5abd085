-- ===== src/Tests/Checks.antt =====
-- `CheckDomainUseCase` on the watched domain.
use domain_watcher.Application.CheckDomain.Endings.{Ends}
use domain_watcher.Application.CheckDomain.Attempts.{counting, execute-attempts}
use domain_watcher.Application.CheckDomain.Outcomes.{execute-Ends}
use domain_watcher.Application.CheckDomain.{CheckDomainUseCase, execute}
use domain_watcher.Application.World.{World}
use domain_watcher.Checking.{CheckOutcome, make_result, IsResult, make_result-IsResult}
use domain_watcher.Dict
use domain_watcher.Monitoring.Repository.{MemoryRepo, memory_repository, memory_get}
use domain_watcher.Prelude.{
  ℕ, ◌+◌, ◌≤◌, ◌≡◌, refl, arith, [], ◌∷◌, some, none, list_eq, list_beq, nat_eq,
}
use domain_watcher.Shared.Time.{aware}
use domain_watcher.Shared.Errors.{ok}
use domain_watcher.Tests.Data.{
  floats, retry_policy, site, watched, environment, repo_world, good_result, expiry,
}

abbrev use_case : CheckDomainUseCase floats environment memory_repository
use_case = record { checkers = (b'w' ∷ [], b'w' ∷ []) ∷ []; retry_policy = retry_policy }

is_watched : memory_repository.get repo_world.store site ≡ some watched
unfolding memory_repository memory_get Dict.get list_beq
is_watched = refl

is_registered : Dict.get use_case.checkers watched.checker_id ≡ some (b'w' ∷ [])
unfolding Dict.get list_beq
is_registered = refl

execute-Ends_example :
    Ends floats environment memory_repository retry_policy watched site
      (b'w' ∷ [])
      repo_world.store
      []
      (execute floats environment memory_repository use_case site repo_world).0
      (execute floats environment memory_repository use_case site repo_world).1
execute-Ends_example =
    execute-Ends floats environment memory_repository use_case site watched (b'w' ∷ []) repo_world
      (omega arith) is_watched is_registered

built :
    make_result site CheckOutcome.ok (some (aware expiry)) (b'w' ∷ []) none none ≡ ok good_result
unfolding make_result
built = refl

make_result-IsResult_example : IsResult good_result
make_result-IsResult_example =
    make_result-IsResult site CheckOutcome.ok (some (aware expiry)) (b'w' ∷ []) none none built

abbrev counted : CheckDomainUseCase floats (counting environment) memory_repository
counted = record { checkers = (b'w' ∷ [], b'w' ∷ []) ∷ []; retry_policy = retry_policy }

abbrev uncounted : World (ℕ × ℕ) MemoryRepo
uncounted = record { env = (7, 0); store = (site.value, watched) ∷ []; published = [] }

execute-attempts_example :
    (execute floats (counting environment) memory_repository counted site uncounted).1.env.1 ≤ 0 + 3
execute-attempts_example =
    execute-attempts floats environment memory_repository counted site uncounted
