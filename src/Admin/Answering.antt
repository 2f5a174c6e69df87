-- ===== src/Admin/Answering.antt =====
-- The handler answers the requests that it is defined for.
use sist_distrib2c.Base.{◌≡◌, inr, refl, [], ◌∷◌}
use sist_distrib2c.Message.{Message}
use sist_distrib2c.Channel.{Channel, send_message}
use sist_distrib2c.Admin.Servable.{Servable, HasAnswer}

-- An answer with nothing before it.
abbrev one_answer :
    {activity channel : Channel} {request : Message} (response : Message)
    → response.client_id ≡ request.client_id
    → HasAnswer activity channel request
        (send_message (record channel { id = request.client_id }) response ∷ [])
one_answer response same = record {
  updates = [];
  response = response;
  for_client = same;
  whole = refl;
  are_updates = tt;
  only_selection = inr refl;
}
