-- ===== src/Lib.antt =====
-- The backend of the power guard: MQTT readings of devices are validated, stored, judged by an
-- inference engine and fanned out to WebSocket clients. The development models the Python package
-- backend/src/powerguard, and paths without a root are inside it, and the core of ml/src/powerguard_ml.
--
-- The parts, and how they work together:
-- * Topics (mqtt/topics.py), Payload (mqtt/schemas.py) and Validation (mqtt/validation.py) decide
--   what a message is. Text is a list of code points; Text/Regex matches by derivatives. The UTF-8
--   decoder, `json.loads`, `strptime` and the arithmetic of floats are parameters (`Codec`,
--   `Calendar`, `Floats`), so nothing is assumed of rounding or of NaN.
-- * Adapter (mqtt/client.py, mqtt/ports.py) is `PahoMqttAdapter` as a state machine: one function
--   per callback, and `step` over the events of Adapter/Machine. Code that runs on the thread of Paho
--   and hands a call to the loop appends to `loop_calls`; a tick runs the oldest one. A callback
--   runs to its end before another begins, and Paho itself is the stream of answers in the events
--   and the list of `requests`. Delays are counted in units of 2 ^ -54 seconds, and
--   the product and the sum in a delay are rounded to 53 bits as doubles are.
-- * Store (db/uow.py, db/repositories.py) has the repositories and the unit of work over a session
--   of SQLAlchemy, whose calls are the fields of `Database` and may answer with a value, an
--   `IntegrityError` or another error. `Task` is the monad of the block of a `with`.
-- * History (db/repositories.py) is the pages that `history` gives, with what a statement selects as a
--   parameter; the repositories of readings and of anomalies have the same code. Fuel bounds the
--   pages that a client asks for, and one more than there are rows is enough.
-- * Status (device_status.py) is the tracker that ingestion and the scan for stale devices share.
-- * Ingestion (mqtt/ingestion.py) is `handle`: it uses Validation, Store, Status and the ports of
--   domain/ports.py. Its state is `Service`, with the storage and the publisher inside.
-- * Inference (inference/shadow.py, inference/unavailable.py) has the engines without verdicts, and
--   Inference/Loader (inference/loader.py) the choice of the engine at startup, with the calls of the
--   optional package as the parameter `Artifacts`.
-- * Segments and Prepare (ml/src/powerguard_ml/preprocess.py, with the rows of dataset.py in Dataset)
--   turn the rows of one device into the segments that a window may span. Segments is the cut, over
--   any rows that show what contiguity reads; training and the online detector share it.
-- * Features (features.py and model.py there) is the vector of a window, the score and the
--   suppression of short runs. NumPy and the fitted pipeline are parameters.
-- * Detector (adapter.py there) is the engine that scores the live stream, with a buffer and a run
--   per device. Detector/Step is one reading, Detector/Parity the whole stream.
-- * Json, Review (review.py there), Gate (gate.py), Train (train.py) and Artifact (artifact.py and the
--   constructor in adapter.py) decide what may be trained on, promoted and loaded. They start at
--   decoded JSON and parsed arguments; the conversions of Python, the fitted model and the files of
--   an artifact are parameters.
-- * Config (config.py) reads the database URL; whether a directory exists is a parameter.
-- * Hub (realtime/hub.py, realtime/events.py) is the fan-out. Subscription objects are numbered,
--   and the registry holds their numbers, so that an object that was taken out can still be read.
-- * Bootstrap (bootstrap.py) wires the hub as the publisher and scans for stale devices.
-- * Entities (domain/entities.py) and Settings (config.py) are the shared records; Prelude and
--   Measure hold what all parts use. Moments are microseconds.
--
-- Every loop of the program but that over the pages is a recursion over a list, so no fuel is needed
-- for it. The last place of a double is found with 16 steps of fuel, which is enough for 69 bits,
-- and a delay has 60 at most. Not modelled: logging, the API
-- routes, the other reads of the repositories, the tables' declarations, the command lines of the
-- machine-learning tools, fitting a model, and the firmware and the frontend, which are not Python.
pub mod Prelude
pub mod Text
pub mod Topics
pub mod Measure
pub mod Settings
pub mod Payload
pub mod Validation
pub mod Entities
pub mod Status
pub mod Adapter
pub mod History
pub mod Hub
pub mod Store
pub mod Ingestion
pub mod Inference
pub mod Bootstrap
pub mod Config
pub mod Segments
pub mod Features
pub mod Detector
pub mod Dataset
pub mod Prepare
pub mod Json
pub mod Review
pub mod Gate
pub mod Artifact
pub mod Train
