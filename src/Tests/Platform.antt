-- ===== src/Tests/Platform.antt =====
-- A platform to run on: capability sets are functions, the audit log is a list of its entries, and a
-- display is the list of its connectors.
use sher_graphics.Base.{
  Bool, true, false, String, Option, none, some, List, [], ◌∷◌, ◌==◌, if◌then◌else◌,
}
use sher_graphics.Result.{ok}
use sher_graphics.Kernel.{
  ObjectId, Platform, Capability, gpu_admin, gpu_command_submit, gpu_memory_alloc, other,
}

abbrev pub text : Capability → String
text gpu_admin = "GpuAdmin"
text gpu_command_submit = "GpuCommandSubmit"
text gpu_memory_alloc = "GpuMemoryAlloc"
text (other n) = "Other"

abbrev pub find_connector : ObjectId → List ObjectId → Option ObjectId
find_connector id [] = none
find_connector id (c ∷ cs) = if id == c then some c else find_connector id cs

abbrev pub bench : Platform
bench = record {
  CapabilitySet = Capability → Bool;
  has_capability = λ s c. s c;
  debug = text;
  AuditLog = List (ObjectId × String × Bool);
  empty_log = [];
  log = λ l actor action result. (actor, action, result) ∷ l;
  Connector = ObjectId;
  Framebuffer = ObjectId;
  framebuffer_id = λ f. f;
  Display = List ObjectId;
  new_display = λ bytes. [];
  register_connector = λ c cs. (ok tt, c ∷ cs);
  get_connector = find_connector;
  allocate_framebuffer = λ width height cs. (ok 99, cs);
  page_flip = λ connector framebuffer cs. (ok tt, cs);
}

-- Every capability, and none.
abbrev pub all_caps : Capability → Bool
all_caps c = true

abbrev pub no_caps : Capability → Bool
no_caps c = false
