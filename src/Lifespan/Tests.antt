-- ===== src/Lifespan/Tests.antt =====
-- Runs of lifespans.
use hypercorn.Prelude.{◌≡◌, refl, some, [], ◌∷◌}
use hypercorn.Lifespan.{
  single, app_error, group, lifespan_failure, startup_stage, startup_complete, lifespan_startup,
  lifespan_shutdown, App, finishes, sends, receives, init, subgroup, reraised, handle_lifespan,
  ask_all,
}
use hypercorn.Lifespan.Told.{Told, handle_lifespan-Told}

-- An application that starts and breaks down when it is asked to shut down.
abbrev breaks_down : App
breaks_down =
    receives λ r. sends startup_complete λ e. receives λ q. finishes (some (single app_error))

handle_lifespan-Told_example :
    Told (ask_all (lifespan_startup ∷ lifespan_shutdown ∷ []) (handle_lifespan breaks_down init))
handle_lifespan-Told_example =
    handle_lifespan-Told breaks_down (lifespan_startup ∷ lifespan_shutdown ∷ [])

-- Of a group, the failures of the lifespan are raised again.
group_reraised :
    reraised (group (app_error ∷ lifespan_failure startup_stage [] ∷ []))
    ≡ some (group (lifespan_failure startup_stage [] ∷ []))
unfolding reraised subgroup
group_reraised = refl
