-- ===== src/VectorMap.antt =====
-- vector_map: the rows of the files of a map and the handles that keep what they hold, from
-- vector_map/lib/vector_map/vector_map.cpp and vector_map/include/vector_map/vector_map.h.
pub mod Numbers
pub mod Columns
pub mod Handles
pub mod Points
pub mod Shapes
pub mod Ways
pub mod Lanes
pub mod Edges
pub mod Markings
pub mod Crossings
pub mod Surfaces
pub mod Signs
pub mod Posts
pub mod Barriers
pub mod Items
pub mod RoundTrip
pub mod Files
pub mod ShortLanes
pub mod Markers
pub mod Outlines
pub mod Tests
