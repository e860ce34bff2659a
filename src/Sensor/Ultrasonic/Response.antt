-- ===== src/Sensor/Ultrasonic/Response.antt =====
-- What level a response of the sensor gives.
use hydro_logger.Prelude.{ℕ, ◌+◌, ◌≡◌, ◌<◌, pos, true, List, arith}
use hydro_logger.Sensor.Manager.{is_valid_distance}
use hydro_logger.Sensor.Ultrasonic.{read_u16_be, extract}

-- A valid level is the range less the distance, if the distance is no more than 35.535 m beyond the
-- range: a distance beyond the range wraps around 16 bits, to a level that is no valid one.
pub extract-level :
    (response : List ℕ)
    → let distance = read_u16_be response 3 in
      let range = read_u16_be response 5 in
      let level = (extract response).distance_mm in
      distance < range + 35536 → is_valid_distance (pos level) ≡ true → level + distance ≡ range
unfolding extract is_valid_distance
extract-level response near valid =
    let d = read_u16_be response 3 in let r = read_u16_be response 5 in ground arith
