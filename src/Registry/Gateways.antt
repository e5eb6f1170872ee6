-- ===== src/Registry/Gateways.antt =====
-- The list of gateways of the dispatch server over time: Start and the thread of
-- src/dispatch/service_discovery.h.
use my_tiny_im.Base.{◌≡◌, refl, Bool, true, false, List, All, if◌then◌else◌}
use my_tiny_im.Base.Text.{Text}
use my_tiny_im.Services.{History, Services, ok, M, ◌>>=◌, pure, attempt}
use my_tiny_im.Registry.{update_gateways}
use my_tiny_im.Registry.Cache.{IsAddress, update_gateways-ends}

pub record Discovery : Type 0 where
  pub running : Bool
  pub gateway_list : List Text

-- Stop, which then waits for the thread.
unfoldable pub stop_discovery : Discovery → Discovery
stop_discovery d = record d { running = false }

module _ (sv : Services) where
  -- UpdateGateways; an exception leaves the list as it was.
  unfoldable pub refresh_gateways : Discovery → M Discovery
  refresh_gateways d =
      attempt (do new_list ← update_gateways sv; pure (record d { gateway_list = new_list }))
        (pure d)

  -- Start, up to the thread, each round of which is `refresh_gateways`.
  unfoldable pub start_discovery : Discovery → M Discovery
  start_discovery d = if d.running then pure d else refresh_gateways (record d { running = true })

  -- Starting ends with a value, whatever Redis answers: discovery runs, and a list that was fetched
  -- has only addresses that are not empty. Starting once more calls nothing and changes nothing.
  pub starts_once :
      (gateway_list : List Text) (h : History)
      → let d : Discovery = record { running = false; gateway_list = gateway_list } in
        (fetched : List Text) × (later : History) × (start_discovery d h
          ≡ (ok (record { running = true; gateway_list = fetched }), later))
        × All IsAddress fetched
        × (start_discovery (record { running = true; gateway_list = fetched }) later
            ≡ (ok (record { running = true; gateway_list = fetched }), later))
  unfolding start_discovery refresh_gateways
  starts_once gateway_list h =
      let (fetched, later, e, a) = update_gateways-ends sv h in (fetched, later, rw e refl, a, refl)
